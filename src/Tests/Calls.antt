-- ===== src/Tests/Calls.antt =====
-- Requests over the agent's socket, and a stop.
use routeup.Base.{
  Text, pos, codes, ◌≡◌, refl, inl, false, some, List, [], ◌∷◌, text_eq, lookup, insert, sort_by,
}
use routeup.Tests.Exposures.{blog, served, served-Inv}
use routeup.Route.Target.{root}
use routeup.Agent.Registry.{Claim, connected, not_exposed, Registry, list, lookup_claim}
use routeup.Agent.Owners.{Controls, Control}
use routeup.Agent.Api.{
  Agent, listed, handle_list, Waited, acknowledged, ticked, StopWait, await_stop, given_up,
  end_expose, tunnel_ended, stopped,
}
use routeup.Agent.Api.Exposing.{Ended, end_expose-Ended}
use routeup.Agent.Api.Listing.{Shown, handle_list-Shown}
use routeup.Agent.Api.Stopping.{await_stop-stopped}

-- A claim of the route that the tunnel of the session is for.
abbrev blog_claim : Claim
blog_claim = record {
  name = codes "blog.localhost";
  port = pos 3000;
  targets = record { path = root; port = pos 3000 } ∷ [];
  capture_request = false;
  capture_response = false;
  redact_headers = [];
  owner_pid = pos 8;
  owner_cwd = [];
  registered_at = 1;
  public_host = [];
  public_paths = [];
  public_state = not_exposed;
}

abbrev route_name : Text
route_name = codes "blog.localhost"

abbrev control : Control
control = record { owner_pid = pos 8; stop = false; ack = false }

abbrev controls : Controls
controls = record { by_route = (route_name, 0) ∷ []; made = control ∷ [] }

abbrev agent : Agent
agent = record { reg = (route_name, blog_claim) ∷ []; owners = controls; tunnels = served }

abbrev shown_claim : Claim
shown_claim = record blog_claim { public_host = blog; public_state = connected }

routes_listed : handle_list agent ≡ listed (shown_claim ∷ [])
unfolding handle_list routeup.Agent.Registry.list routeup.Base.sort_by
    routeup.Agent.Tunnels.Steps.receive_grant routeup.Agent.Tunnels.on_granted
    routeup.Agent.Tunnels.new_manager routeup.Base.text_eq routeup.Agent.Tunnels.store
    routeup.Base.lookup routeup.Base.insert
routes_listed = refl

handle_list-Shown_example : Shown agent shown_claim
handle_list-Shown_example =
    handle_list-Shown agent (shown_claim ∷ []) shown_claim served-Inv routes_listed (inl refl)

-- The exposure is started again, and the tunnel ends before it is established.
end_expose-Ended_example :
    ((end_expose 0 tunnel_ended agent).0.reg ≡ agent.reg)
    × ((end_expose 0 tunnel_ended agent).0.owners ≡ agent.owners)
    × Ended 0 agent (end_expose 0 tunnel_ended agent).0 (end_expose 0 tunnel_ended agent).1
end_expose-Ended_example = end_expose-Ended 0 tunnel_ended agent

control_found : lookup route_name controls.by_route ≡ some 0
unfolding lookup text_eq
control_found = refl

abbrev waited : List Waited
waited = ticked agent.reg ∷ acknowledged agent.reg ∷ ticked [] ∷ []

await_stop-stopped_example : await_stop route_name (pos 8) waited ≡ StopWait.stopped
unfolding routeup.Agent.Api.given_up routeup.Agent.Registry.lookup_claim routeup.Base.lookup
    routeup.Base.text_eq
await_stop-stopped_example = await_stop-stopped route_name (pos 8) waited refl refl
