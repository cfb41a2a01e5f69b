-- ===== src/Agent/Registry.antt =====
-- internal/agent/registry.go, and type Claim of internal/ipc: the agent's claims of route names.
-- Every method runs under the registry's lock, so it is one step. Whether a process is alive is a
-- parameter, the answer of os.FindProcess and of signal 0. Times are readings of the clock.
pub mod Laws
use routeup.Base.{
  Text, if◌then◌else◌, ℤ, pos, ltb_ℤ, eq_ℤ, Result, ok, ◌>>=◌, ◌>>◌, fail_if, wrap, text_eq, Map,
  lookup, insert, delete, sort_by, ℕ, ◌+◌, Bool, true, false, not, ◌&&◌, Option, none, some, List,
  [], ◌∷◌,
}
use routeup.Strings.{Unicode}
use routeup.Route.Target.{Target, TargetError, root, normalize_targets, primary_port}

-- type ExposureState
pub data ExposureState : Type 0 where
  connected reconnecting not_exposed : ExposureState

-- type Claim
pub record Claim : Type 0 where
  pub name : Text
  pub port : ℤ
  pub targets : List Target
  pub capture_request : Bool
  pub capture_response : Bool
  pub redact_headers : List Text
  pub owner_pid : ℤ
  pub owner_cwd : Text
  pub registered_at : ℕ
  pub public_host : Text
  pub public_paths : List Text
  pub public_state : ExposureState

-- type Registry
abbrev pub Registry : Type 0
Registry = Map Claim

pub data ClaimError : Type 0 where
  name_required owner_required target_required : ClaimError
  bad_target : TargetError → ClaimError
  conflict : Text → Claim → ClaimError

-- func NewRegistry
abbrev pub new_registry : Registry
new_registry = []

abbrev pub no_targets : List Target → Bool
no_targets [] = true
no_targets (t ∷ ts) = false

-- func normalizeClaim
unfoldable pub normalize_claim : Unicode → Claim → Result ClaimError Claim
normalize_claim u c = do
  fail_if (text_eq c.name []) name_required
  fail_if (eq_ℤ c.owner_pid (pos 0)) owner_required
  let targets =
      if no_targets c.targets && not (eq_ℤ c.port (pos 0))
      then record { path = root; port = c.port } ∷ []
      else c.targets
  normalized ← wrap bad_target (normalize_targets u targets)
  fail_if (no_targets normalized) target_required
  ok (record c { targets = normalized; port = primary_port normalized; public_paths = [] })

-- func (r *Registry) Unregister
unfoldable pub unregister : Text → ℤ → Registry → Registry × Bool
unregister name owner_pid claims = elim (lookup name claims) [
  | none ↦ (claims, false)
  | some c ↦
      if not (eq_ℤ c.owner_pid owner_pid) then (claims, false) else (delete name claims, true)
]

abbrev pub values : Registry → List Claim
values [] = []
values ((k, c) ∷ m) = c ∷ values m

-- func (r *Registry) List
unfoldable pub list : Registry → List Claim
list claims = sort_by (λ c. c.name) (values claims)

-- func (r *Registry) Lookup; the copies that it makes are equal to their originals
unfoldable pub lookup_claim : Text → Registry → Option Claim
lookup_claim name claims = lookup name claims

-- What LookupTargets returns of a claim.
pub record Routing : Type 0 where
  pub targets : List Target
  pub capture_request : Bool
  pub capture_response : Bool
  pub redact_headers : List Text

-- func (r *Registry) LookupTargets
unfoldable pub lookup_targets : Text → Registry → Option Routing
lookup_targets name claims = elim (lookup name claims) [
  | none ↦ none
  | some c ↦ some (record {
    targets = c.targets;
    capture_request = c.capture_request;
    capture_response = c.capture_response;
    redact_headers = c.redact_headers;
  })
]

module _ (signal : ℤ → Bool) where
  -- func defaultPIDAlive; `signal` says whether the process is found and takes signal 0, or refuses
  -- it with EPERM
  unfoldable pub pid_alive : ℤ → Bool
  pid_alive pid = if ltb_ℤ (pos 0) pid then signal pid else false

  -- Whether another process that is alive owns the claim that a new one would replace.
  abbrev pub held_by_other : Option Claim → ℤ → Bool
  held_by_other none owner = false
  held_by_other (some existing) owner =
      not (eq_ℤ existing.owner_pid owner) && pid_alive existing.owner_pid

  abbrev pub existing_or : Claim → Option Claim → Claim
  existing_or c none = c
  existing_or c (some existing) = existing

  -- func (r *Registry) Register
  unfoldable pub register : Unicode → ℕ → Claim → Registry → Result ClaimError (Registry × Claim)
  unfolding pid_alive normalize_claim
  register u now c claims = do
    normalized ← normalize_claim u c
    let existing = lookup normalized.name claims
    fail_if (held_by_other existing normalized.owner_pid)
        (conflict normalized.name (existing_or normalized existing))
    let stamped = record normalized { registered_at = now }
    ok (insert normalized.name stamped claims, stamped)

  -- func (r *Registry) Reap
  unfoldable pub reap : Registry → Registry × ℕ
  unfolding pid_alive
  reap [] = ([], 0)
  reap ((k, c) ∷ m) =
      let (rest, dropped) = reap m in
      if not (pid_alive c.owner_pid) then (rest, dropped + 1) else ((k, c) ∷ rest, dropped)
