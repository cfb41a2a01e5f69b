-- ===== src/Agent/Tunnels/Reach.antt =====
-- The managers that any sequence of requests and events makes of a new one, and what holds of them.
use routeup.Base.{
  Text, length, get_elem?, ℤ, ok, wrap-eq-ok, Result-cases, lookup, ℕ, ◌≡◌, refl, subst, inl, inr,
  Bool, false, some, List, arith, none, err-ne-ok,
}
use routeup.Strings.{Unicode}
use routeup.Route.Pattern.{normalize_path_patterns}
use routeup.Agent.Tunnels.{
  Session, Manager, new_manager, reserve, on_granted, on_disconnected, finish, find_claim,
  finish_found,
}
use routeup.Agent.Tunnels.Steps.{
  ExposeRequest, UnexposeRequest, bad_tunnel, normalize_expose_targets, new_session, start_expose,
  receive_grant, give_up, unexpose, reap_dead_owners,
}
use routeup.Agent.Tunnels.Claims.{claim_eq_iff, find_claim-drop, length-update_session}
use routeup.Agent.Tunnels.Invariant.{Inv, Serves, Live, new_manager-Inv}
use routeup.Agent.Tunnels.Invariant.Starts.{Inv-reserve, IsNew, reserved}
use routeup.Agent.Tunnels.Invariant.Ends.{Inv-finish, ended}
use routeup.Agent.Tunnels.Invariant.Events.{Inv-on_granted, Inv-on_disconnected, Inv-give_up}
use routeup.Agent.Tunnels.Invariant.Hosts.{Inv-reap, Inv-receive_grant, Inv-unexpose}

module _ (sha256 : Text → Text) (u : Unicode) (signal : ℤ → Bool) where
  -- One step of the manager, whose order with the others the requests and the network choose.
  pub data Step : Manager → Manager → Type 0 where
    started :
        (req : ExposeRequest) (m m' : Manager) (i : ℕ)
        → start_expose sha256 u req m ≡ ok (m', i)
        → Step m m'
    granted : (i : ℕ) (host : Text) (m : Manager) → Step m (on_granted i host m)
    disconnected : (i : ℕ) (m : Manager) → Step m (on_disconnected i m)
    received : (i : ℕ) (m : Manager) → Step m (receive_grant i m).0
    gave_up : (i : ℕ) (m : Manager) → Step m (give_up i m)
    finished : (i : ℕ) (failed : Bool) (m : Manager) → Step m (finish i failed m)
    unexposed : (req : UnexposeRequest) (m : Manager) → Step m (unexpose req m).0
    reaped : (m : Manager) → Step m (reap_dead_owners signal m).0

  pub data Reach : Manager → Type 0 where
    new : Reach new_manager
    step : {m m' : Manager} → Reach m → Step m m' → Reach m'

  start_expose-reserve :
      (req : ExposeRequest) (m m' : Manager) (i : ℕ)
      → start_expose sha256 u req m ≡ ok (m', i)
      → (paths : List Text) × (reserve (new_session sha256 req paths) m ≡ ok (m', i))
  unfolding start_expose
  start_expose-reserve req m m' i e = elim (Result-cases (normalize_expose_targets u req)) [
    | inr (why, t) ↦ absurd (err-ne-ok (rw (start_expose, t) at e))
    | inl (targets, t) ↦ elim (Result-cases (normalize_path_patterns u req.paths)) [
      | inr (why, p) ↦ absurd (err-ne-ok (rw (start_expose, t, p) at e))
      | inl (paths, p) ↦ (
        paths,
        wrap-eq-ok bad_tunnel (reserve (new_session sha256 req paths) m)
            (rw (start_expose, t, p) at e),
      )
    ]
  ]

  new_session-IsNew :
      (req : ExposeRequest) (paths : List Text) → IsNew (new_session sha256 req paths)
  new_session-IsNew req paths = record { host = refl; done = refl; granted = refl }

  Step-Inv : {m m' : Manager} → Step m m' → Inv m → Inv m'
  Step-Inv (started req m m' i e) v =
      let (paths, r) = start_expose-reserve req m m' i e in
      Inv-reserve (new_session sha256 req paths) m m' i (new_session-IsNew req paths) r v
  Step-Inv (granted i host m) v = Inv-on_granted i host m v
  Step-Inv (disconnected i m) v = Inv-on_disconnected i m v
  Step-Inv (received i m) v = Inv-receive_grant i m v
  Step-Inv (gave_up i m) v = Inv-give_up i m v
  Step-Inv (finished i failed m) v = Inv-finish i failed m v
  Step-Inv (unexposed req m) v = Inv-unexpose req m v
  Step-Inv (reaped m) v = Inv-reap signal m v

  pub Reach-Inv : {m : Manager} → Reach m → Inv m
  Reach-Inv new = new_manager-Inv
  Reach-Inv (step r s) = Step-Inv s (Reach-Inv r)

  -- Whatever requests and events have come, in whatever order, a host that is active has a session
  -- that is not done and that was granted this host.
  pub active-Serves :
      (m : Manager) (h : Text) (i : ℕ)
      → Reach m
      → lookup h m.active ≡ some i
      → Serves h (get_elem? m.sessions i)
  active-Serves m h i r e = (Reach-Inv r).active_ok h i e

  -- Whatever requests and events have come, two sessions that are not done and that have one claim,
  -- the server, the name and the hash of the token, are one session.
  pub claim_unique :
      (m : Manager) (i j : ℕ) (s t : Session)
      → Reach m
      → get_elem? m.sessions i ≡ some s
      → get_elem? m.sessions j ≡ some t
      → s.done ≡ false
      → t.done ≡ false
      → s.claim ≡ t.claim
      → i ≡ j
  claim_unique m i j s t r p q d e same =
      let a = subst (Live m.claims i) p ((Reach-Inv r).live_claim i) d in
      let b = subst (Live m.claims j) q ((Reach-Inv r).live_claim j) e in
      ground (arith, a, rw same at a, b)

  -- Whatever requests and events have come, the end of a session's tunnel frees its claim: a session
  -- with the same claim is then reserved, under the next number.
  pub reserve-finish :
      (m : Manager) (i : ℕ) (failed : Bool) (s t : Session)
      → Reach m
      → get_elem? m.sessions i ≡ some s
      → s.done ≡ false
      → t.claim ≡ s.claim
      → reserve t (finish i failed m) ≡ ok (reserved t (finish i failed m), length m.sessions)
  unfolding reserve finish finish_found
  reserve-finish m i failed s t r p d e =
      let held = subst (Live m.claims i) p ((Reach-Inv r).live_claim i) d in
      let free : find_claim t.claim (finish i failed m).claims ≡ none =
        rw (e, finish, p)
          (ground (
            arith,
            held,
            claim_eq_iff s.claim s.claim,
            find_claim-drop s.claim s.claim m.claims,
          )) in
      rw (reserve, free) (rw (finish, p, length-update_session i (ended failed) m.sessions) refl)
