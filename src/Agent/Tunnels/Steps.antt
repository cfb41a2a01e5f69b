-- ===== src/Agent/Tunnels/Steps.antt =====
-- internal/agent/expose.go: the requests that reach the manager, and the events of a session. Expose
-- is cut where other goroutines can run: it reserves its claim; the tunnel's client reports grants,
-- disconnections and its end; and Expose receives the first grant, or gives up.
use routeup.Base.{
  Text, if◌then◌else◌, length, get_elem?, ℤ, pos, eq_ℤ, Result, ok, err, fail_if, ◌>>◌, wrap,
  text_eq, Map, lookup, delete, sort_by, ℕ, Bool, true, false, not, ◌&&◌, Option, none, some, List,
  [], ◌∷◌, ◌>>=◌,
}
use routeup.Strings.{Unicode}
use routeup.Route.Target.{Target, TargetError, normalize_targets, root}
use routeup.Route.Pattern.{PatternError, normalize_path_patterns}
use routeup.Agent.Registry.{ExposureState, pid_alive, reconnecting}
use routeup.Agent.Tunnels.{
  Session, Manager, reserve, ExposureClaim, TunnelError, update_session, change, cancel_session,
  owner_of, store,
}

-- type ipc.ExposeRequest
pub record ExposeRequest : Type 0 where
  pub name : Text
  pub route : Text
  pub port : ℤ
  pub targets : List Target
  pub paths : List Text
  pub server : Text
  pub token : Text
  pub owner_pid : ℤ

-- type ipc.UnexposeRequest
pub record UnexposeRequest : Type 0 where
  pub host : Text
  pub route : Text
  pub owner_pid : ℤ

pub data ExposeError : Type 0 where
  bad_target : TargetError → ExposeError
  bad_path : PatternError → ExposeError
  bad_tunnel : TunnelError → ExposeError
  target_required no_host : ExposeError

abbrev pub lacks_target : List Target → Bool
lacks_target [] = true
lacks_target (t ∷ ts) = false

-- func normalizeExposeTargets
unfoldable pub normalize_expose_targets : Unicode → ExposeRequest → Result ExposeError (List Target)
normalize_expose_targets u req = do
  let targets =
      if lacks_target req.targets && not (eq_ℤ req.port (pos 0))
      then record { path = root; port = req.port } ∷ []
      else req.targets
  normalized ← wrap bad_target (normalize_targets u targets)
  fail_if (lacks_target normalized) target_required
  ok normalized

module _ (sha256 : Text → Text) where
  abbrev pub claim_of : ExposeRequest → ExposureClaim
  claim_of req = record { server = req.server; name = req.name; token_hash = sha256 req.token }

  -- The session that Expose makes.
  abbrev pub new_session : ExposeRequest → List Text → Session
  new_session req paths = record {
    host = [];
    route = req.route;
    paths = paths;
    owner_pid = req.owner_pid;
    state = reconnecting;
    cancelled = false;
    done = false;
    failed = false;
    claim = claim_of req;
    granted = none;
  }

  -- func (m *tunnelManager) Expose, up to the start of the tunnel's client
  unfoldable pub start_expose : Unicode → ExposeRequest → Manager → Result ExposeError (Manager × ℕ)
  unfolding normalize_expose_targets
  start_expose u req m = do
    targets ← normalize_expose_targets u req
    paths ← wrap bad_path (normalize_path_patterns u req.paths)
    wrap bad_tunnel (reserve (new_session req paths) m)

abbrev pub buffer_of : Option Session → Option Text
buffer_of none = none
buffer_of (some s) = s.granted

-- Expose's store of the host that it received, and the cancel where the store is refused.
unfoldable pub store_or_cancel : Text → ℕ → Manager → Manager × Result ExposeError Text
store_or_cancel host i m = elim (store host i m) [
  | ok m' ↦ (m', ok host)
  | err e ↦ (change i cancel_session m, err (bad_tunnel e))
]

-- Expose's first case: a host has been received. With an empty buffer there is nothing to receive.
unfoldable pub receive_grant : ℕ → Manager → Manager × Option (Result ExposeError Text)
unfolding update_session store_or_cancel
receive_grant i m = elim (buffer_of (get_elem? m.sessions i)) [
  | none ↦ (m, none)
  | some host ↦
      let taken = change i (λ s. record s { granted = none }) m in
      if text_eq host []
      then (change i cancel_session taken, some (err no_host))
      else (let (m', r) = store_or_cancel host i taken in (m', some r))
]

-- Expose's other cases: the tunnel has ended, or the request has.
unfoldable pub give_up : ℕ → Manager → Manager
unfolding update_session
give_up i m = change i cancel_session m

abbrev pub same_owner : UnexposeRequest → Option Session → Bool
same_owner req none = false
same_owner req (some s) = text_eq s.route req.route && eq_ℤ s.owner_pid req.owner_pid

-- Unexpose, for the number that the host has.
unfoldable pub unexpose_found : UnexposeRequest → Option ℕ → Manager → Manager × Bool
unfolding update_session
unexpose_found req none m = (m, false)
unexpose_found req (some i) m =
    if same_owner req (get_elem? m.sessions i)
    then (change i cancel_session (record m { active = delete req.host m.active }), true)
    else (m, false)

-- func (m *tunnelManager) Unexpose
unfoldable pub unexpose : UnexposeRequest → Manager → Manager × Bool
unfolding unexpose_found
unexpose req m = unexpose_found req (lookup req.host m.active) m

-- ReapDeadOwners' loop of cancels.
unfoldable pub cancel_all : List ℕ → List Session → List Session
unfolding update_session
cancel_all [] ss = ss
cancel_all (i ∷ is) ss = cancel_all is (update_session i cancel_session ss)

module _ (signal : ℤ → Bool) where
  abbrev pub owner_dead : List Session → ℕ → Bool
  owner_dead ss i = not (pid_alive signal (owner_of (get_elem? ss i)))

  -- The loop of ReapDeadOwners over the active hosts: what is left of them, and the sessions found.
  unfoldable pub dead_owners : List Session → Map ℕ → Map ℕ × List ℕ
  unfolding pid_alive
  dead_owners ss [] = ([], [])
  dead_owners ss ((host, i) ∷ hosts) =
      let (rest, dead) = dead_owners ss hosts in
      if owner_dead ss i then (rest, i ∷ dead) else ((host, i) ∷ rest, dead)

  -- func (m *tunnelManager) ReapDeadOwners
  unfoldable pub reap_dead_owners : Manager → Manager × ℕ
  unfolding dead_owners cancel_all
  reap_dead_owners m =
      let (hosts, dead) = dead_owners m.sessions m.active in
      (record m { sessions = cancel_all dead m.sessions; active = hosts }, length dead)

-- type ipc.ExposureStatus
pub record ExposureStatus : Type 0 where
  pub route : Text
  pub host : Text
  pub paths : List Text
  pub owner_pid : ℤ
  pub state : ExposureState

abbrev pub status_of : Session → ExposureStatus
status_of s = record {
  route = s.route;
  host = s.host;
  paths = s.paths;
  owner_pid = s.owner_pid;
  state = s.state;
}

-- The loop of statuses.
unfoldable pub statuses_from : List Session → Map ℕ → List ExposureStatus
statuses_from ss [] = []
statuses_from ss ((host, i) ∷ hosts) = elim (get_elem? ss i) [
  | none ↦ statuses_from ss hosts
  | some s ↦ status_of s ∷ statuses_from ss hosts
]

-- func (m *tunnelManager) statuses
unfoldable pub statuses : Manager → List ExposureStatus
unfolding statuses_from
statuses m = sort_by (λ s. s.host) (statuses_from m.sessions m.active)
