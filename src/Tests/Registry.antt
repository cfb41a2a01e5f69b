-- ===== src/Tests/Registry.antt =====
-- Claims of local route names.
use routeup.Base.{
  if◌then◌else◌, In, ℤ, pos, eq_ℤ, ok, err, codes, text_eq, lookup, Sorted, ℕ, ◌≡◌, refl, ◌≢◌, ◌↔◌,
  Bool, true, false, not, ◌&&◌, Option, none, some, List, [], ◌∷◌, insert,
}
use routeup.Tests.{plain}
use routeup.Route.Target.{
  Target, root, trim_path_slash, normalize_target_path, normalize_target, normalize_targets,
  primary_port,
}
use routeup.Agent.Registry.{
  Claim, Registry, register, not_exposed, conflict, normalize_claim, pid_alive, held_by_other,
}
use routeup.Agent.Registry.Laws.{Registered, register-Registered, register-conflict_iff}

-- Every process but number 7 is alive.
abbrev signal : ℤ → Bool
signal pid = not (eq_ℤ pid (pos 7))

abbrev front : List Target
front = record { path = root; port = pos 3000 } ∷ []

abbrev claim_of : ℤ → ℕ → Claim
claim_of pid t = record {
  name = codes "web";
  port = pos 3000;
  targets = front;
  capture_request = false;
  capture_response = false;
  redact_headers = [];
  owner_pid = pid;
  owner_cwd = codes "/home";
  registered_at = t;
  public_host = [];
  public_paths = [];
  public_state = not_exposed;
}

abbrev given : Claim
given = record (claim_of (pos 9) 0) { targets = []; public_paths = codes "/*" ∷ [] }

abbrev of_dead : Registry
of_dead = (codes "web", claim_of (pos 7) 3) ∷ []

abbrev of_nine : Registry
of_nine = (codes "web", claim_of (pos 9) 5) ∷ []

replaced : register signal plain 5 given of_dead ≡ ok (of_nine, claim_of (pos 9) 5)
unfolding register text_eq routeup.Route.Target.normalize_targets
    routeup.Route.Target.normalize_target routeup.Route.Target.normalize_target_path
    routeup.Strings.valid_string routeup.Strings.has_control routeup.Strings.trim_space
    routeup.Strings.has_prefix routeup.Strings.contains_any lookup routeup.Base.insert
    routeup.Route.Target.primary_port routeup.Route.Target.trim_path_slash
replaced = refl

register-Registered_example :
    (held_by_other signal (lookup (codes "web") of_dead) (pos 9) ≡ false)
    × Registered 5 (claim_of (pos 9) 5) given of_dead of_nine
register-Registered_example =
    register-Registered signal plain 5 given (claim_of (pos 9) 5) of_dead of_nine replaced

normal : normalize_claim plain (claim_of (pos 8) 0) ≡ ok (claim_of (pos 8) 0)
unfolding normalize_claim text_eq routeup.Route.Target.normalize_targets
    routeup.Route.Target.normalize_target routeup.Route.Target.normalize_target_path
    routeup.Strings.valid_string routeup.Strings.has_control routeup.Strings.trim_space
    routeup.Strings.has_prefix routeup.Strings.contains_any routeup.Route.Target.primary_port
    routeup.Route.Target.trim_path_slash
normal = refl

register-conflict_iff_example :
    (register signal plain 6 (claim_of (pos 8) 0) of_nine
      ≡ err (conflict (codes "web") (claim_of (pos 9) 5)))
    ↔ ((lookup (codes "web") of_nine ≡ some (claim_of (pos 9) 5))
        × (pos 9 ≢ pos 8)
        × (pid_alive signal (pos 9) ≡ true))
register-conflict_iff_example =
    register-conflict_iff signal plain 6 (claim_of (pos 8) 0) (claim_of (pos 8) 0)
      (claim_of (pos 9) 5) of_nine normal

abbrev if_alive : Option Claim → Option Claim
if_alive none = none
if_alive (some c) = if pid_alive signal c.owner_pid then some c else none
