-- ===== src/Tests/Exposures.antt =====
-- One public tunnel, from the request to its end.
use routeup.Base.{
  Text, get_elem?, ℤ, pos, eq_ℤ, ok, codes, lookup, ◌≡◌, refl, Bool, none, some, [], ℕ, ◌⊎◌, false,
  true, text_eq, insert,
}
use routeup.Strings.{trim_space, valid_string, has_control, has_prefix, contains_any}
use routeup.Tests.{plain}
use routeup.Agent.Registry.{connected, Registry, pid_alive}
use routeup.Agent.Tunnels.{
  Session, Manager, new_manager, on_granted, reserve, finish, store, cancel_session,
}
use routeup.Agent.Tunnels.Steps.{
  ExposeRequest, new_session, start_expose, receive_grant, reap_dead_owners, UnexposeRequest,
  unexpose,
}
use routeup.Agent.Tunnels.Invariant.{Serves, Inv}
use routeup.Agent.Tunnels.Invariant.Starts.{reserved}
use routeup.Agent.Tunnels.Reach.{
  Reach, started, granted, received, new, step, active-Serves, claim_unique, Reach-Inv,
  reserve-finish,
}
use routeup.Agent.Tunnels.Releases.{reap-owners, IsOwn, Released, unexpose-owner}

abbrev pub same_text : Text → Text
same_text t = t

abbrev pub only_7 : ℤ → Bool
only_7 pid = eq_ℤ pid (pos 7)

abbrev pub blog : Text
blog = codes "blog.x.dev"

abbrev pub request : ExposeRequest
request = record {
  name = codes "blog";
  route = codes "blog.localhost";
  port = pos 3000;
  targets = [];
  paths = [];
  server = codes "x.dev";
  token = codes "t";
  owner_pid = pos 8;
}

abbrev reserved_once : Manager
reserved_once = reserved (new_session same_text request []) new_manager

start_once : start_expose same_text plain request new_manager ≡ ok (reserved_once, 0)
unfolding start_expose routeup.Route.Target.normalize_targets routeup.Route.Target.normalize_target
    routeup.Route.Target.normalize_target_path routeup.Strings.valid_string
    routeup.Strings.has_control routeup.Base.text_eq routeup.Strings.trim_space
    routeup.Strings.has_prefix routeup.Strings.contains_any
    routeup.Route.Pattern.normalize_path_patterns reserve new_manager
start_once = refl

abbrev pub served : Manager
served = (receive_grant 0 (on_granted 0 blog reserved_once)).0

served-Reach : Reach same_text plain only_7 served
served-Reach =
    step
      (step (step new (started request new_manager reserved_once 0 start_once))
        (granted 0 blog reserved_once))
      (received 0 (on_granted 0 blog reserved_once))

served-active : lookup blog served.active ≡ some 0
unfolding lookup receive_grant on_granted new_manager routeup.Base.text_eq
    routeup.Agent.Tunnels.store routeup.Base.insert
served-active = refl

active-Serves_example : Serves blog (get_elem? served.sessions 0)
active-Serves_example =
    active-Serves same_text plain only_7 served blog 0 served-Reach served-active

abbrev the_session : Session
the_session = record (new_session same_text request []) { host = blog; state = connected }

served-session : get_elem? served.sessions 0 ≡ some the_session
unfolding receive_grant on_granted new_manager routeup.Base.text_eq routeup.Agent.Tunnels.store
    lookup
served-session = refl

claim_unique_example : ◌≡◌ {A = ℕ} 0 0
claim_unique_example =
    claim_unique same_text plain only_7 served 0 0 the_session the_session served-Reach
      served-session served-session refl refl refl

reserve-finish_example :
    reserve the_session (finish 0 true served) ≡ ok (reserved the_session (finish 0 true served), 1)
unfolding receive_grant on_granted new_manager routeup.Base.text_eq routeup.Agent.Tunnels.store
    lookup
reserve-finish_example =
    reserve-finish same_text plain only_7 served 0 true the_session the_session served-Reach
      served-session refl refl

pub served-Inv : Inv served
served-Inv = Reach-Inv same_text plain only_7 served-Reach

reap-owners_example :
    (lookup blog (reap_dead_owners only_7 served).0.active ≡ none)
    × (get_elem? (reap_dead_owners only_7 served).0.sessions 0 ≡ some (cancel_session the_session))
unfolding routeup.Agent.Registry.pid_alive receive_grant on_granted new_manager text_eq store lookup
reap-owners_example = reap-owners only_7 served blog 0 served-Inv served-active

abbrev other_owner : UnexposeRequest
other_owner = record { host = blog; route = codes "blog.localhost"; owner_pid = pos 9 }

-- The session with a host is another owner's, and the request is refused.
unexpose-owner_example :
    (((unexpose other_owner served).1 ≡ true)
      × (i : ℕ) × (lookup blog served.active ≡ some i)
      × IsOwn other_owner (get_elem? served.sessions i)
      × Released blog i served (unexpose other_owner served).0)
    ⊎ (((unexpose other_owner served).1 ≡ false)
        × ((unexpose other_owner served).0 ≡ served)
        × ((i : ℕ)
            → lookup blog served.active ≡ some i
            → ¬ IsOwn other_owner (get_elem? served.sessions i)))
unexpose-owner_example = unexpose-owner other_owner served
