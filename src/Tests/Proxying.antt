-- ===== src/Tests/Proxying.antt =====
-- A request that reaches a target, and its record.
use routeup.Base.{
  Text, if◌then◌else◌, length, pos, eq_ℤ, codes, lookup, ℕ, ◌≡◌, refl, true, false, Option, none,
  some, [], ◌∷◌, ◌++◌, text_eq, ◌≢◌,
}
use routeup.Tests.{plain}
use routeup.Strings.{to_lower}
use routeup.Route.Target.{Target, root, target_path_matches, match_target}
use routeup.Logs.Entry.{Entry, valid_source}
use routeup.Route.Name.{route_name_from_host, Name}
use routeup.Logs.Store.Append.{newest}
use routeup.Logs.Store.Runs.{new_store-Inv}
use routeup.Logs.Store.{new_store, Store}
use routeup.Logs.Store.Refinement.{Inv, contents}
use routeup.Agent.Registry.{Registry, Routing, not_exposed, lookup_targets}
use routeup.Proxy.{
  Request, Outgoing, failed, answered, Network, Outcome, Timing, strip_port, forward, serve_targets,
  record_entry, served, local_entry, local_handler, rewrite,
}
use routeup.Proxy.Laws.{Guarded, SentTo, serve_targets-Guarded, local_handler-SentTo}
use routeup.Proxy.Recorded.{logged, serve_targets-recorded}
use routeup.Proxy.Status.{forward-status}

abbrev api : Target
api = record { path = codes "/api"; port = pos 8080 }

abbrev routing : Routing
routing = record {
  targets = record { path = root; port = pos 3000 } ∷ api ∷ [];
  capture_request = true;
  capture_response = false;
  redact_headers = codes "cookie" ∷ [];
}

abbrev get_item : Request
get_item = record {
  host = codes "web.localhost";
  method = codes "GET";
  uri = codes "/api/1";
  path = codes "/api/1";
  escaped = codes "/api/1";
  headers = (codes "Cookie", codes "secret" ∷ []) ∷ [];
  no_body = true;
}

-- An upstream that sends early hints and then fails on one port, and answers on any other.
abbrev network : Network
network = record {
  split_host_port = λ h. none;
  outgoing_headers = λ r. r.headers;
  set_x_forwarded = λ r hs. hs;
  round_trip = λ out.
      if eq_ℤ out.port (pos 8080)
      then record { sent = []; interim = pos 103 ∷ []; answer = failed }
      else record {
        sent = [];
        interim = [];
        answer = answered (record { status = pos 200; headers = []; no_body = true; body = [] });
      };
}

abbrev when : Timing
when = record { started_at = 5; duration = 2 }

abbrev claims : Registry
claims =
    (
      codes "web",
      record {
        name = codes "web";
        port = pos 3000;
        targets = routing.targets;
        capture_request = true;
        capture_response = false;
        redact_headers = routing.redact_headers;
        owner_pid = pos 7;
        owner_cwd = [];
        registered_at = 1;
        public_host = [];
        public_paths = [];
        public_state = not_exposed;
      },
    )
    ∷ []

abbrev web_entry : Entry
web_entry = local_entry (codes "web") (codes "web.localhost")

serve_targets-Guarded_example :
    Guarded plain routing [] get_item
      (serve_targets plain network routing [] when get_item web_entry)
serve_targets-Guarded_example =
    serve_targets-Guarded plain network routing [] when get_item web_entry

forward-status_example :
    ((forward plain network routing api get_item web_entry).writer.passed ≡ pos 103 ∷ pos 502 ∷ [])
    × ((forward plain network routing api get_item web_entry).entry.status ≡ pos 103)
unfolding routeup.Proxy.rewrite
forward-status_example = forward-status plain network routing api get_item web_entry

abbrev web_outcome : Outcome
web_outcome = serve_targets plain network routing [] when get_item web_entry

abbrev sent_out : Outgoing
sent_out = record { port = pos 8080; host = get_item.host; headers = get_item.headers }

web_handled : local_handler plain network claims when get_item ≡ served web_outcome
unfolding local_handler routeup.Route.Name.route_name_from_host routeup.Strings.cut_suffix
    routeup.Strings.to_lower lookup_targets lookup
web_handled = refl

web_sent : web_outcome.forwarded ≡ some sent_out
unfolding serve_targets routeup.Route.Pattern.path_allowed routeup.Route.Target.match_target
    routeup.Route.Target.target_path_matches routeup.Base.text_eq routeup.Strings.has_prefix
web_sent = refl

local_handler-SentTo_example :
    (name : Text) × (routing' : Routing) × (to_lower plain (strip_port plain network get_item.host)
      ≡ name ++ codes ".localhost")
    × (name ≢ [])
    × (lookup_targets name claims ≡ some routing')
    × SentTo routing' get_item sent_out
local_handler-SentTo_example =
    local_handler-SentTo plain network claims when get_item web_outcome sent_out web_handled
      web_sent

abbrev draw : ℕ → Option Text
draw n = some (codes "r1")

serve_targets-recorded_example :
    (t : Store) × (record_entry 9 draw (some new_store) web_outcome.entry ≡ some t)
    × Inv t
    × (contents t
        ≡ newest
            (length new_store.entries)
            (contents new_store ++ logged 9 (codes "r1") web_outcome.entry ∷ []))
unfolding lookup new_store routeup.Logs.Entry.valid_source text_eq
serve_targets-recorded_example =
    serve_targets-recorded plain network routing [] when get_item web_entry 9 draw (codes "r1")
      new_store new_store-Inv refl refl refl refl refl
