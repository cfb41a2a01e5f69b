-- ===== src/Proxy.antt =====
-- internal/proxy/local.go: the handler that sends a request to a local target and records it. The
-- packages net, net/http and httputil are a parameter: how a host is split from its port, which
-- headers a forwarded request starts with, and how the exchange with the upstream went. The texts of
-- the replies and the agent's own log are left out.
pub mod Laws
pub mod Recorded
pub mod Status
use routeup.Base.{
  Text, if◌then◌else◌, ℤ, pos, eq_ℤ, codes, text_eq, lookup, insert, ℕ, Bool, not, Option, none,
  some, List, [], ◌∷◌, ◌++◌, ok, err,
}
use routeup.Strings.{Unicode}
use routeup.Route.Target.{Target, match_target}
use routeup.Route.Pattern.{path_allowed}
use routeup.Route.Name.{route_name_from_host}
use routeup.Logs.Capture.{
  Headers, Capture, MessageCapture, new_message_capture, Chunk, reads, take_message,
}
use routeup.Logs.Entry.{Entry, source_public, source_local, zero_entry}
use routeup.Logs.Store.{Store, append}
use routeup.Agent.Registry.{Routing, Registry, lookup_targets}

-- What the handler reads of an *http.Request.
pub record Request : Type 0 where
  pub host : Text
  pub method : Text
  pub uri : Text
  pub path : Text
  pub escaped : Text
  pub headers : Headers
  pub no_body : Bool

-- What the handler sets of the request to the upstream.
pub record Outgoing : Type 0 where
  pub port : ℤ
  pub host : Text
  pub headers : Headers

-- The upstream's response, with the reads that copy its body.
pub record Response : Type 0 where
  pub status : ℤ
  pub headers : Headers
  pub no_body : Bool
  pub body : List Chunk

-- The end of an exchange: no response; a response; or a 101 response after which the connection could
-- not be switched, so that ErrorHandler follows ModifyResponse.
pub data Answer : Type 0 where
  failed : Answer
  upgrade_failed : Response → Answer
  answered : Response → Answer

-- How an exchange went: the reads of the request's body, the 1xx statuses before the answer, and it.
pub record Exchange : Type 0 where
  pub sent : List Chunk
  pub interim : List ℤ
  pub answer : Answer

-- The packages net, net/http and httputil.
pub record Network : Type 0 where
  pub split_host_port : Text → Option Text
  pub outgoing_headers : Request → Headers
  pub set_x_forwarded : Request → Headers → Headers
  pub round_trip : Outgoing → Exchange

-- type statusWriter, with the statuses that it passed on
pub record StatusWriter : Type 0 where
  pub status : ℤ
  pub passed : List ℤ

abbrev pub new_writer : StatusWriter
new_writer = record { status = pos 0; passed = [] }

-- func (w *statusWriter) WriteHeader
unfoldable pub write_header : ℤ → StatusWriter → StatusWriter
write_header status w = record w {
  status = if eq_ℤ w.status (pos 0) then status else w.status;
  passed = w.passed ++ status ∷ [];
}

-- func (w *statusWriter) Write, less the bytes
unfoldable pub write : StatusWriter → StatusWriter
unfolding write_header
write w = if eq_ℤ w.status (pos 0) then write_header (pos 200) w else w

unfoldable pub write_headers : List ℤ → StatusWriter → StatusWriter
unfolding write_header
write_headers [] w = w
write_headers (status ∷ more) w = write_headers more (write_header status w)

-- The names of copyForwardedHeaders.
abbrev pub forwarded_names : List Text
forwarded_names =
    codes "X-Forwarded-For" ∷ codes "X-Forwarded-Host" ∷ codes "X-Forwarded-Proto" ∷ []

-- The loop of copyForwardedHeaders.
unfoldable pub copy_headers : List Text → Headers → Headers → Headers
copy_headers [] dst src = dst
copy_headers (name ∷ names) dst src = elim (lookup name src) [
  | none ↦ copy_headers names dst src
  | some [] ↦ copy_headers names dst src
  | some (v ∷ vs) ↦ copy_headers names (insert name (v ∷ vs) dst) src
]

-- func copyForwardedHeaders
unfoldable pub copy_forwarded_headers : Headers → Headers → Headers
unfolding copy_headers
copy_forwarded_headers dst src = copy_headers forwarded_names dst src

-- What became of a request: the entry that is recorded, the response, the request to the upstream.
pub record Outcome : Type 0 where
  pub entry : Entry
  pub writer : StatusWriter
  pub forwarded : Option Outgoing

abbrev pub no_target : Target
no_target = record { path = []; port = pos 0 }

-- The capture of an entry, from those of its two messages.
abbrev pub capture_of : Option MessageCapture → Option MessageCapture → Option Capture
capture_of none none = none
capture_of (some q) none = some (record { request = some (take_message q); response = none })
capture_of none (some p) = some (record { request = none; response = some (take_message p) })
capture_of (some q) (some p) =
    some (record { request = some (take_message q); response = some (take_message p) })

-- The time at which a request began, and how long it took.
pub record Timing : Type 0 where
  pub started_at : ℕ
  pub duration : ℕ

-- The fields of an entry that are known before the request is served.
abbrev pub begun : Timing → Request → Entry → Entry
begun when r e = record e {
  started_at = when.started_at;
  duration = when.duration;
  method = r.method;
  request_path = r.uri;
}

-- A request that is turned down: it has no target, and its status is 404.
unfoldable pub turned_down : Entry → Outcome
unfolding write_header write
turned_down e =
    let w = write (write_header (pos 404) new_writer) in
    record {
      entry = record e { status = w.status; target = no_target };
      writer = w;
      forwarded = none;
    }

module _ (u : Unicode) (net : Network) where
  -- func stripPort
  unfoldable pub strip_port : Text → Text
  strip_port h =
      if text_eq h [] then h else elim (net.split_host_port h) [ some host ↦ host | none ↦ h ]

  -- The request that Rewrite makes.
  unfoldable pub rewrite : Text → Target → Request → Outgoing
  unfolding copy_forwarded_headers
  rewrite source t r = record {
    port = t.port;
    host = r.host;
    headers =
        if text_eq source source_public
        then copy_forwarded_headers (net.outgoing_headers r) r.headers
        else net.set_x_forwarded r (net.outgoing_headers r);
  }

  abbrev pub captured : Bool → List Text → Headers → Bool → List Chunk → Option MessageCapture
  captured wanted redact headers no_body rs =
      if wanted then some (reads rs (new_message_capture u headers no_body redact)) else none

  -- The response's writer, and the capture of the response, after the upstream's answer.
  unfoldable pub answer_written :
      Routing → Answer → StatusWriter → StatusWriter × Option MessageCapture
  unfolding write_header write
  answer_written routing failed w = (write (write_header (pos 502) w), none)
  answer_written routing (upgrade_failed p) w = (
    write (write_header (pos 502) (record w { status = p.status })),
    captured routing.capture_response routing.redact_headers p.headers p.no_body p.body,
  )
  answer_written routing (answered p) w = (
    write_header p.status (record w { status = p.status }),
    captured routing.capture_response routing.redact_headers p.headers p.no_body p.body,
  )

  -- serveTargets, from the choice of a target on
  unfoldable pub forward : Routing → Target → Request → Entry → Outcome
  unfolding rewrite write_headers answer_written
  forward routing t r e =
      let out = rewrite e.source t r in
      let x = net.round_trip out in
      let request_capture =
        captured routing.capture_request routing.redact_headers r.headers r.no_body x.sent in
      let (w, response_capture) =
        answer_written routing x.answer (write_headers x.interim new_writer) in
      record {
        entry = record e {
          status = w.status;
          target = t;
          capture = capture_of request_capture response_capture;
        };
        writer = w;
        forwarded = some out;
      }

  -- func serveTargets, less the append to the store
  unfoldable pub serve_targets : Routing → List Text → Timing → Request → Entry → Outcome
  unfolding turned_down forward
  serve_targets routing exposed when r e =
      if not (path_allowed u exposed r.path r.escaped)
      then turned_down (begun when r e)
      else elim (match_target routing.targets r.path) [
        | none ↦ turned_down (begun when r e)
        | some t ↦ forward routing t r (begun when r e)
      ]

-- The deferred end of serveTargets: the append, whose error is only logged.
unfoldable pub record_entry : ℕ → (ℕ → Option Text) → Option Store → Entry → Option Store
record_entry now draw none e = none
record_entry now draw (some s) e = elim (append now draw s e) [
  | ok (s', out) ↦ some s'
  | err why ↦ some s
]

-- How a handler ends: writeNotFound, which records nothing, or serveTargets.
pub data Handled : Type 0 where
  no_such_host : Handled
  no_such_route : Handled
  served : Outcome → Handled

abbrev pub local_entry : Text → Text → Entry
local_entry name host = record zero_entry { source = source_local; route_name = name; host = host }

abbrev pub public_entry : Text → Text → Entry
public_entry name host = record zero_entry {
  source = source_public;
  route_name = name;
  host = host;
}

module _ (u : Unicode) (net : Network) where
  -- The handler that New returns, less the append to the store
  unfoldable pub local_handler : Registry → Timing → Request → Handled
  unfolding strip_port serve_targets
  local_handler claims when r =
      let host = strip_port u net r.host in
      elim (route_name_from_host u host) [
        | none ↦ no_such_host
        | some name ↦ elim (lookup_targets name claims) [
          | none ↦ no_such_route
          | some routing ↦ served (serve_targets u net routing [] when r (local_entry name host))
        ]
      ]

  -- The handler that NewTargets returns, less the append to the store
  unfoldable pub public_handler : Routing → List Text → Text → Timing → Request → Outcome
  unfolding strip_port serve_targets
  public_handler routing exposed name when r =
      serve_targets u net routing exposed when r (public_entry name (strip_port u net r.host))

-- A handler's end, with the append to the store.
unfoldable pub finish_handler : ℕ → (ℕ → Option Text) → Option Store → Handled → Option Store
unfolding record_entry
finish_handler now draw store no_such_host = store
finish_handler now draw store no_such_route = store
finish_handler now draw store (served o) = record_entry now draw store o.entry
