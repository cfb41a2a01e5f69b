-- ===== src/Lib.antt =====
-- A verification library for routeup, a local route registry with public tunnels.
--
-- The program has three parts. A command registers a route name and its targets with the local
-- agent, which serves <name>.localhost and records recent requests. For a public route the agent
-- opens a tunnel to the server. The server authorizes the claim, holds the public host for it, and
-- sends requests down the tunnel.
--
-- Which file models which code (paths from the repository's root):
--   Route/Name      internal/route/name.go, constants.go, routeNameFromHost of internal/proxy/local.go
--   Route/Target    internal/route/target.go: targets and the choice of a target
--   Route/Pattern   internal/route/target.go: path patterns of an exposure
--   Logs/Capture    internal/logs/capture.go
--   Logs/Entry      internal/logs/entry.go
--   Logs/Store      internal/logs/store.go
--   Server/Holds    internal/server/holds.go
--   Server/Limiter  internal/server/ratelimit.go
--   Server/Host     internal/server/host.go
--   Server/Allow    internal/server/allow.go
--   Server/Reserved internal/server/reserved.go
--   Server/Tokens   internal/server/tokens.go
--   Server/Config   internal/server/config.go
--   Server/Authorize  internal/server/authorize.go
--   Server/Broker   internal/server/broker.go, which joins the limiter, the tokens, the authorizer
--                   and the holds
--   Server/Tunnels  internal/tunnel/server.go: register and release of sessions
--   Agent/Registry  internal/agent/registry.go, type Claim of internal/ipc/ipc.go
--   Agent/Tunnels   internal/agent/expose.go: the sessions, their claims and their hosts
--   Agent/Tunnels/Steps  internal/agent/expose.go: Expose, Unexpose, ReapDeadOwners, statuses
--   Agent/Owners    internal/agent/owners.go
--   Agent/Api       internal/agent/api.go, over the registry, the owners and the tunnels
--   Config/Resolve  internal/config/resolve.go
--   Config/File     internal/config/config.go: type Config and Validate
--   Config/Load     internal/config/packagejson.go, discovery.go, LoadRouteupJSON
--   Proxy           internal/proxy/local.go, over the registry, the targets and the request log
--   Process/Env     internal/process/env.go
--   Server/Ingress  internal/server/api.go, with observability.go and metrics.go
--   Tunnel/Client   internal/tunnel/client.go, timeouts.go
--   Agentctl/Reconcile  internal/agentctl/reconcile.go
--   Base, Strings   Go's strings, maps and integers, and package strings
--   Tests           the theorems at concrete inputs
--
-- A function has its Go name in snake case. A method on shared state is a function from the state to
-- the state and the result, since each runs under one lock. A Go pair of a value and an error is a
-- Result with the component's own errors; messages of errors are not modelled, what they carry is.
-- Texts are lists of bytes. Texts of ASCII bytes are handled byte by byte; what package strings does
-- to others depends on the tables of package unicode, which are the parameter `Unicode`. Further
-- parameters are the token buckets of golang.org/x/time/rate, SHA-256, the answer of a process to
-- signal 0, random texts, the clock, which SQL statements fail, the reading of files and JSON, and what
-- package httputil's reverse proxy meets upstream.
--
-- Bounds and fuel: generateIDLocked draws at most 4 identifiers, and unambiguousRequestPath decodes
-- at most 3 times; both bounds are the code's own loop bounds. strconv.Itoa is read
-- off in 20 rounds, more than an int has digits. All other loops are structural recursion. Times are natural numbers of nanoseconds that do not reach the bound of int64.
--
-- Not modelled: the tunnel's transport, HTTP and TLS, the SQL schema, files, processes, the command
-- line, and the text of the metrics. ListTokens is left out of Tokens, wsURL out of the tunnel's
-- client, and the routing, the status, the shutdown and the log out of the agent's requests.
pub mod Base
pub mod Strings
pub mod Route
pub mod Logs
pub mod Server
pub mod Agent
pub mod Config
pub mod Proxy
pub mod Process
pub mod Tunnel
pub mod Agentctl
pub mod Tests
