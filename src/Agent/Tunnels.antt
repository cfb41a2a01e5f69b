-- ===== src/Agent/Tunnels.antt =====
-- internal/agent/expose.go: the agent's public tunnels. A session is known by its number, and the
-- sessions that Expose has made are kept in a list, where Go keeps pointers to them. Each method runs
-- under the manager's lock, so it is one step; a cancel is the mark that the session's context has
-- been cancelled. The channel grantedCh holds one host at most. Messages of errors are left out; the
-- hash of a token and the checks of paths and targets stand in the request's session.
pub mod Claims
pub mod Steps
pub mod Invariant
pub mod Reach
pub mod Releases
use routeup.Base.{
  Text, ◌==◌, if◌then◌else◌, length, get_elem?, ℤ, pos, Result, ok, err, text_eq, Map, lookup,
  insert, delete, ℕ, zero, suc, Bool, true, false, not, ◌&&◌, Option, none, some, List, [], ◌∷◌,
  ◌++◌,
}
use routeup.Strings.{Unicode}
use routeup.Route.Target.{Target, TargetError, normalize_targets}
use routeup.Agent.Registry.{ExposureState, connected, reconnecting}

-- type exposureClaim
pub record ExposureClaim : Type 0 where
  pub server : Text
  pub name : Text
  pub token_hash : Text

abbrev pub claim_eq : ExposureClaim → ExposureClaim → Bool
claim_eq a b =
    text_eq a.server b.server && (text_eq a.name b.name && text_eq a.token_hash b.token_hash)

-- type tunnelSession, with the buffer of its grantedCh
pub record Session : Type 0 where
  pub host : Text
  pub route : Text
  pub paths : List Text
  pub owner_pid : ℤ
  pub state : ExposureState
  pub cancelled : Bool
  pub done : Bool
  pub failed : Bool
  pub claim : ExposureClaim
  pub granted : Option Text

abbrev pub ClaimMap : Type 0
ClaimMap = List (ExposureClaim × ℕ)

-- type tunnelManager
pub record Manager : Type 0 where
  pub sessions : List Session
  pub active : Map ℕ
  pub claims : ClaimMap

pub data TunnelError : Type 0 where
  already_managed : ℤ → TunnelError
  session_ended : TunnelError

-- func newTunnelManager
unfoldable pub new_manager : Manager
new_manager = record { sessions = []; active = []; claims = [] }

-- The map claimSessions: m.claimSessions[c], its assignment, and its deletion.
unfoldable pub find_claim : ExposureClaim → ClaimMap → Option ℕ
find_claim c [] = none
find_claim c ((d, i) ∷ m) = if claim_eq d c then some i else find_claim c m

unfoldable pub drop_claim : ExposureClaim → ClaimMap → ClaimMap
drop_claim c [] = []
drop_claim c ((d, i) ∷ m) =
    let rest = drop_claim c m in if claim_eq d c then rest else (d, i) ∷ rest

-- A change of the session with a number.
unfoldable pub update_session : ℕ → (Session → Session) → List Session → List Session
update_session i f [] = []
update_session zero f (s ∷ ss) = f s ∷ ss
update_session (suc i) f (s ∷ ss) = s ∷ update_session i f ss

abbrev pub change : ℕ → (Session → Session) → Manager → Manager
change i f m = record m { sessions = update_session i f m.sessions }

abbrev pub cancel_session : Session → Session
cancel_session s = record s { cancelled = true }

abbrev pub owner_of : Option Session → ℤ
owner_of none = pos 0
owner_of (some s) = s.owner_pid

-- func (m *tunnelManager) reserve, of the session that Expose has made; its number comes back
unfoldable pub reserve : Session → Manager → Result TunnelError (Manager × ℕ)
unfolding find_claim
reserve s m = elim (find_claim s.claim m.claims) [
  | some other ↦ err (already_managed (owner_of (get_elem? m.sessions other)))
  | none ↦
      let id = length m.sessions in
      ok (record m { sessions = m.sessions ++ s ∷ []; claims = (s.claim, id) ∷ m.claims }, id)
]

-- setSessionState, on the session; the flag says whether it was in order.
abbrev pub with_state : Text → ExposureState → Session → Session × Bool
with_state host state s =
    if s.done
    then (s, false)
    else if not (text_eq host []) && (not (text_eq s.host []) && not (text_eq s.host host))
    then (cancel_session s, false)
    else if not (text_eq host [])
    then (record s { host = host; state = state }, true)
    else (record s { state = state }, true)

-- func (m *tunnelManager) setSessionState
unfoldable pub set_session_state : ℕ → Text → ExposureState → Manager → Manager
unfolding update_session
set_session_state i host state m = change i (λ s. (with_state host state s).0) m

-- A send to grantedCh, which drops the host where the buffer is full.
abbrev pub offer : Text → Session → Session
offer host s = elim s.granted [ none ↦ record s { granted = some host } | some h ↦ s ]

-- Expose's OnGranted, on the session: its state, and then the send.
abbrev pub granted_session : Text → Session → Session
granted_session host s =
    let (s', in_order) = with_state host connected s in if in_order then offer host s' else s'

unfoldable pub on_granted : ℕ → Text → Manager → Manager
unfolding update_session
on_granted i host m = change i (granted_session host) m

-- Expose's OnDisconnected.
unfoldable pub on_disconnected : ℕ → Manager → Manager
unfolding set_session_state
on_disconnected i m = set_session_state i [] reconnecting m

-- The other session that store finds under a host.
abbrev pub held_by_another : ℕ → Option ℕ → Bool
held_by_another i none = false
held_by_another i (some j) = not (j == i)

abbrev pub number_or : ℕ → Option ℕ → ℕ
number_or i none = i
number_or i (some j) = j

-- func (m *tunnelManager) store, for the session as it is
unfoldable pub store_found : Text → ℕ → Option Session → Manager → Result TunnelError Manager
unfolding update_session
store_found host i none m = err session_ended
store_found host i (some s) m =
    if s.done
    then err session_ended
    else if held_by_another i (lookup host m.active)
    then err
        (already_managed (owner_of (get_elem? m.sessions (number_or i (lookup host m.active)))))
    else ok (record m {
      sessions = update_session i (λ t. record t { host = host }) m.sessions;
      active = insert host i m.active;
    })

unfoldable pub store : Text → ℕ → Manager → Result TunnelError Manager
unfolding store_found
store host i m = store_found host i (get_elem? m.sessions i) m

abbrev pub is_number : ℕ → Option ℕ → Bool
is_number i none = false
is_number i (some j) = j == i

-- func (m *tunnelManager) finish, for the session as it is
unfoldable pub finish_found : ℕ → Bool → Option Session → Manager → Manager
unfolding update_session drop_claim find_claim
finish_found i failed none m = m
finish_found i failed (some s) m = record {
  sessions =
      update_session i (λ t. record t { done = true; failed = failed; cancelled = true })
        m.sessions;
  active =
      if not (text_eq s.host []) && is_number i (lookup s.host m.active)
      then delete s.host m.active
      else m.active;
  claims =
      if is_number i (find_claim s.claim m.claims) then drop_claim s.claim m.claims else m.claims;
}

unfoldable pub finish : ℕ → Bool → Manager → Manager
unfolding finish_found
finish i failed m = finish_found i failed (get_elem? m.sessions i) m
