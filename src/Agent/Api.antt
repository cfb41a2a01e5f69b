-- ===== src/Agent/Api.antt =====
-- internal/agent/api.go: the requests over the agent's socket. A body is what JSON decodes to, if it
-- decodes; a reply is a status and what the client reads of the body. The texts of errors, the
-- version and the times of the status are left out.
pub mod Listing
pub mod Stopping
pub mod Exposing
use mathlib.Core.Option
use routeup.Base.{
  Text, if◌then◌else◌, get_elem?, ℤ, pos, ltb_ℤ, eq_ℤ, Result, ok, err, text_eq, Map, ℕ, Bool, true,
  not, ◌&&◌, ◌||◌, Option, none, some, List, [], ◌∷◌, map,
}
use routeup.Strings.{Unicode}
use routeup.Route.Target.{Target}
use routeup.Config.Resolve.{atoi}
use routeup.Agent.Registry.{
  Registry, Claim, ClaimError, no_targets, conflict, unregister, list, lookup_claim, register,
}
use routeup.Agent.Owners.{Controls, attach, detach, stop, acknowledge}
use routeup.Agent.Tunnels.{Manager, Session}
use routeup.Agent.Tunnels.Steps.{
  ExposeRequest, UnexposeRequest, unexpose, ExposeError, lacks_target, start_expose, receive_grant,
  give_up,
}

-- The parts of type Agent that the handlers use.
pub record Agent : Type 0 where
  pub reg : Registry
  pub owners : Controls
  pub tunnels : Manager

-- A reply. An error names a claim where writeJSONError has one.
pub data Reply : Type 0 where
  json_error : ℕ → Option Claim → Reply
  created : Claim → Reply
  listed : List Claim → Reply
  ready : ℕ → Reply
  exposed : Text → Reply
  no_content : Reply

abbrev pub blank : Text → Bool
blank t = text_eq t []

-- The owner_pid of a query: a number above zero.
abbrev pub positive : Option ℤ → Option ℤ
positive none = none
positive (some n) = if ltb_ℤ (pos 0) n then some n else none

unfoldable pub owner_of_query : Text → Option ℤ
unfolding atoi
owner_of_query raw = positive (atoi raw)

abbrev pub register_reply : Agent → Result ClaimError (Registry × Claim) → Agent × Reply
register_reply a (ok (reg', c)) = (record a { reg = reg' }, created c)
register_reply a (err (conflict name existing)) = (a, json_error 409 (some existing))
register_reply a (err e) = (a, json_error 500 none)

-- func (a *Agent) handleUnregister
unfoldable pub handle_unregister : Text → Text → Agent → Agent × Reply
unfolding owner_of_query
handle_unregister name owner a =
    if blank name then (a, json_error 400 none) else elim (owner_of_query owner) [
      | none ↦ (a, json_error 400 none)
      | some pid ↦ (record a { reg = (unregister name pid a.reg).0 }, no_content)
    ]

-- publicExposures, as the list of the active sessions: a key is found in the first that has it, where
-- Go keeps whichever of them it meets last.
unfoldable pub active_sessions : List Session → Map ℕ → List Session
active_sessions ss [] = []
active_sessions ss ((host, i) ∷ hosts) = elim (get_elem? ss i) [
  | none ↦ active_sessions ss hosts
  | some s ↦ s ∷ active_sessions ss hosts
]

unfoldable pub exposure_of : Claim → List Session → Option Session
exposure_of c [] = none
exposure_of c (s ∷ ss) =
    let rest = exposure_of c ss in
    if eq_ℤ s.owner_pid c.owner_pid && text_eq s.route c.name then some s else rest

-- A claim with what its exposure, if any, shows.
abbrev pub annotated : Claim → Option Session → Claim
annotated c none = c
annotated c (some s) = record c {
  public_host = s.host;
  public_paths = s.paths;
  public_state = s.state;
}

-- func (a *Agent) handleList
unfoldable pub handle_list : Agent → Reply
unfolding active_sessions exposure_of
handle_list a =
    let exposures = active_sessions a.tunnels.sessions a.tunnels.active in
    listed (map (λ c. annotated c (exposure_of c exposures)) (list a.reg))

-- handleOwnerEvents, up to the wait
unfoldable pub open_owner_events : Text → Text → Agent → Agent × Reply
unfolding owner_of_query
open_owner_events name owner a = elim (if blank name then none else owner_of_query owner) [
  | none ↦ (a, json_error 400 none)
  | some pid ↦ elim (lookup_claim name a.reg) [
    | none ↦ (a, json_error 404 none)
    | some c ↦
        if not (eq_ℤ c.owner_pid pid)
        then (a, json_error 409 (some c))
        else (let (owners', got) = attach name pid a.owners in
            elim got [
              | none ↦ (a, json_error 409 (some c))
              | some id ↦ (record a { owners = owners' }, ready id)
            ])
  ]
]

-- handleOwnerEvents's deferred detach
unfoldable pub close_owner_events : Text → ℕ → Agent → Agent
close_owner_events name id a = record a { owners = detach name id a.owners }

-- handleStopOwner, up to the wait
unfoldable pub request_stop : Text → Agent → Agent × Reply
request_stop name a = elim (lookup_claim name a.reg) [
  | none ↦ (a, json_error 404 none)
  | some c ↦
      let (owners', got) = stop name c.owner_pid a.owners in
      elim got [
        | none ↦ (a, json_error 409 (some c))
        | some id ↦ (record a { owners = owners' }, ready id)
      ]
]

-- Whether the owner has given the name up.
unfoldable pub given_up : Text → ℤ → Registry → Bool
given_up name owner_pid reg = elim (lookup_claim name reg) [
  | none ↦ true
  | some c ↦ not (eq_ℤ c.owner_pid owner_pid)
]

-- What handleStopOwner's loops receive, with the registry at the time.
pub data Waited : Type 0 where
  client_gone : Waited
  acknowledged : Registry → Waited
  ticked : Registry → Waited

pub data StopWait : Type 0 where
  pending abandoned stopped : StopWait

-- handleStopOwner's second loop: the stop is acknowledged, and only ticks count.
unfoldable pub await_release : Text → ℤ → List Waited → StopWait
unfolding given_up
await_release name pid [] = pending
await_release name pid (client_gone ∷ ws) = abandoned
await_release name pid (acknowledged reg ∷ ws) = await_release name pid ws
await_release name pid (ticked reg ∷ ws) =
    let rest = await_release name pid ws in if given_up name pid reg then stopped else rest

-- handleStopOwner's first loop; after the acknowledgement the second looks at the registry first.
unfoldable pub await_stop : Text → ℤ → List Waited → StopWait
unfolding await_release
await_stop name pid [] = pending
await_stop name pid (client_gone ∷ ws) = abandoned
await_stop name pid (acknowledged reg ∷ ws) =
    if given_up name pid reg then stopped else await_release name pid ws
await_stop name pid (ticked reg ∷ ws) =
    let rest = await_stop name pid ws in if given_up name pid reg then stopped else rest

-- func (a *Agent) handleOwnerStopAck
unfoldable pub handle_owner_stop_ack : Text → Text → Agent → Agent × Reply
unfolding owner_of_query
handle_owner_stop_ack name owner a = elim (if blank name then none else owner_of_query owner) [
  | none ↦ (a, json_error 400 none)
  | some pid ↦
      let (owners', done) = acknowledge name pid a.owners in
      if not done then (a, json_error 409 none) else (record a { owners = owners' }, no_content)
]

-- func (a *Agent) handleUnexpose
unfoldable pub handle_unexpose : Option UnexposeRequest → Agent → Agent × Reply
handle_unexpose none a = (a, json_error 400 none)
handle_unexpose (some req) a =
    if blank req.host || (blank req.route || eq_ℤ req.owner_pid (pos 0))
    then (a, json_error 400 none)
    else (record a { tunnels = (unexpose req a.tunnels).0 }, no_content)

-- handleExpose's guards
abbrev pub lacks_fields : ExposeRequest → Bool
lacks_fields r =
    eq_ℤ r.port (pos 0) && lacks_target r.targets
    || (blank r.server || (eq_ℤ r.owner_pid (pos 0) || (blank r.name || blank r.route)))

-- handleRegister's guards
abbrev pub lacks_claim_fields : Claim → Bool
lacks_claim_fields c =
    blank c.name || (eq_ℤ c.owner_pid (pos 0) || eq_ℤ c.port (pos 0) && no_targets c.targets)

module _ (u : Unicode) where
  -- func (a *Agent) handleRegister
  unfoldable pub handle_register : (ℤ → Bool) → ℕ → Option Claim → Agent → Agent × Reply
  handle_register signal now none a = (a, json_error 400 none)
  handle_register signal now (some c) a =
      if lacks_claim_fields c
      then (a, json_error 400 none)
      else register_reply a (register signal u now c a.reg)

  -- handleExpose, up to the start of the tunnel's client: the number of the session is the reply's
  unfoldable pub begin_expose : (Text → Text) → Option ExposeRequest → Agent → Agent × Reply
  begin_expose sha256 none a = (a, json_error 400 none)
  begin_expose sha256 (some req) a =
      if lacks_fields req
      then (a, json_error 400 none)
      else elim (start_expose sha256 u req a.tunnels) [
        | err e ↦ (a, json_error 502 none)
        | ok (m, id) ↦ (record a { tunnels = m }, ready id)
      ]

-- What Expose's select receives: a grant, the end of the tunnel's client, or that of the request.
pub data ExposeEvent : Type 0 where
  grant_received tunnel_ended request_ended : ExposeEvent

-- handleExpose's reply to what Expose returned
abbrev pub expose_reply : Result ExposeError Text → Reply
expose_reply (ok host) = exposed host
expose_reply (err e) = json_error 502 none

-- Expose from its select on, and handleExpose's reply, for the session that begin_expose made. There
-- is no reply yet where no grant has been sent.
unfoldable pub end_expose : ℕ → ExposeEvent → Agent → Agent × Option Reply
end_expose i grant_received a =
    let (m, got) = receive_grant i a.tunnels in
    (record a { tunnels = m }, Option.map expose_reply got)
end_expose i tunnel_ended a =
    (record a { tunnels = give_up i a.tunnels }, some (json_error 502 none))
end_expose i request_ended a =
    (record a { tunnels = give_up i a.tunnels }, some (json_error 502 none))
