-- ===== src/Agent/Tunnels/Releases.antt =====
-- What takes a host away from its session: Unexpose, by its owner, and the owner's death.
use mathlib.Core.Option
use routeup.Base.{
  Text, ◌==◌, if◌then◌else◌, Bool-cases, get_elem?, eq_ℤ_iff, text_eq, text_eq_iff, lookup,
  lookup-delete, ℕ, ◌≡◌, refl, sym, ◌∙◌, ◌↔◌, inl, inr, true, Option, none, some, arith, ==_iff,
  any, ℤ, Map, Bool, false, List, [], ◌∷◌, Option-cases, subst, ◌⊎◌,
}
use routeup.Agent.Tunnels.{Session, Manager, cancel_session, update_session}
use routeup.Agent.Tunnels.Steps.{
  UnexposeRequest, same_owner, unexpose_found, unexpose, cancel_all, owner_dead, dead_owners,
  reap_dead_owners,
}
use routeup.Agent.Tunnels.Claims.{update_session-at}
use routeup.Agent.Tunnels.Invariant.{Inv}
use routeup.Agent.Tunnels.Invariant.Hosts.{lookup-dead_owners}

-- The session with the number is the request's: its route and its owner are those of the request.
abbrev pub IsOwn : UnexposeRequest → Option Session → Type 0
IsOwn req none = ⊥
IsOwn req (some s) = (s.route ≡ req.route) × (s.owner_pid ≡ req.owner_pid)

same_owner_iff :
    (req : UnexposeRequest) (o : Option Session) → (same_owner req o ≡ true) ↔ IsOwn req o
same_owner_iff req none = (λ e. cc, λ b. absurd b)
same_owner_iff req (some s) =
    ground (arith, text_eq_iff s.route req.route, eq_ℤ_iff s.owner_pid req.owner_pid)

-- What Unexpose leaves of a manager, where the host was active for a session of the request's: this
-- host is taken away and no other, this session is cancelled and no other, and the claims are kept.
pub record Released (host : Text) (i : ℕ) (m after : Manager) : Type 0 where
  pub hosts :
      (h : Text) → lookup h after.active ≡ (if text_eq host h then none else lookup h m.active)
  pub sessions :
      (j : ℕ)
      → get_elem? after.sessions j ≡ (
          if i == j
          then Option.map cancel_session (get_elem? m.sessions j)
          else get_elem? m.sessions j)
  pub claims : after.claims ≡ m.claims

-- Unexpose succeeds just where the host is active and the route and the owner are its session's. It
-- then takes this host away, and no other, cancels this session, and no other, and keeps the claims;
-- in every other case the manager is as it was.
pub unexpose-owner :
    (req : UnexposeRequest) (m : Manager)
    → (((unexpose req m).1 ≡ true)
        × (i : ℕ) × (lookup req.host m.active ≡ some i)
        × IsOwn req (get_elem? m.sessions i)
        × Released req.host i m (unexpose req m).0)
      ⊎ (((unexpose req m).1 ≡ false)
          × ((unexpose req m).0 ≡ m)
          × ((i : ℕ) → lookup req.host m.active ≡ some i → ¬ IsOwn req (get_elem? m.sessions i)))
unfolding unexpose unexpose_found
unexpose-owner req m = elim (Option-cases (lookup req.host m.active)) [
  | inl e ↦ inr (rw e refl, rw e refl, λ i q. cc)
  | inr (i, e) ↦ elim (Bool-cases (same_owner req (get_elem? m.sessions i))) [
    | inl b ↦ inl (
      rw (e, b) refl,
      i,
      e,
      (same_owner_iff req _).0 b,
      rw (e, b)
          (record {
            hosts = λ h. lookup-delete req.host h m.active;
            sessions = λ j. update_session-at i j cancel_session m.sessions;
            claims = refl;
          }),
    )
    | inr b ↦ inr (
      rw (e, b) refl,
      rw (e, b) refl,
      λ j q o.
          let same : i ≡ j = ground (arith, e, q) in
          absurd (
            ground (
              arith,
              b,
              same_owner_iff req (get_elem? m.sessions i),
              subst (λ k. IsOwn req (get_elem? m.sessions k)) (sym same) o,
            )),
    )
  ]
]

twice :
    (o : Option Session)
    → Option.map cancel_session (Option.map cancel_session o) ≡ Option.map cancel_session o
twice none = refl
twice (some s) = refl

cancel_all-at :
    (is : List ℕ) (ss : List Session) (j : ℕ)
    → get_elem? (cancel_all is ss) j ≡ (
        if any (λ i. i == j) is then Option.map cancel_session (get_elem? ss j) else get_elem? ss j)
unfolding cancel_all
cancel_all-at [] ss j = refl
cancel_all-at (i ∷ is) ss j = ground (
  arith,
  cancel_all-at is (update_session i cancel_session ss) j,
  update_session-at i j cancel_session ss,
  twice (get_elem? ss j),
)

module _ (signal : ℤ → Bool) where
  found_dead :
      (ss : List Session) (hosts : Map ℕ) (h : Text) (i : ℕ)
      → lookup h hosts ≡ some i
      → owner_dead signal ss i ≡ true
      → any (λ k. k == i) (dead_owners signal ss hosts).1 ≡ true
  unfolding lookup dead_owners
  found_dead ss [] h i e d = cc
  found_dead ss ((k, j) ∷ hosts) h i e d = ground (arith, found_dead ss hosts h i)

  only_dead :
      (ss : List Session) (hosts : Map ℕ) (i : ℕ)
      → owner_dead signal ss i ≡ false
      → any (λ k. k == i) (dead_owners signal ss hosts).1 ≡ false
  unfolding dead_owners
  only_dead ss [] i d = refl
  only_dead ss ((k, j) ∷ hosts) i d = ground (arith, only_dead ss hosts i d, ==_iff j i)

  -- Where the invariant of the manager holds, ReapDeadOwners treats each active host by its session's
  -- owner: if the owner is dead, it takes the host away and cancels the session; if it is alive, both
  -- stay as they are.
  pub reap-owners :
      (m : Manager) (h : Text) (i : ℕ)
      → Inv m
      → lookup h m.active ≡ some i
      → (lookup h (reap_dead_owners signal m).0.active
          ≡ (if owner_dead signal m.sessions i then none else some i))
        × (get_elem? (reap_dead_owners signal m).0.sessions i ≡ (
            if owner_dead signal m.sessions i
            then Option.map cancel_session (get_elem? m.sessions i)
            else get_elem? m.sessions i))
  unfolding reap_dead_owners dead_owners
  reap-owners m h i v e = (
    lookup-dead_owners signal m.sessions h m.active v.keys ∙ rw e refl,
    cancel_all-at (dead_owners signal m.sessions m.active).1 m.sessions i ∙ cancelled,
  )
    where
      cancelled :
          (if any (λ k. k == i) (dead_owners signal m.sessions m.active).1
            then Option.map cancel_session (get_elem? m.sessions i)
            else get_elem? m.sessions i)
          ≡ (if owner_dead signal m.sessions i
              then Option.map cancel_session (get_elem? m.sessions i)
              else get_elem? m.sessions i)
      cancelled = elim (Bool-cases (owner_dead signal m.sessions i)) [
        | inl d ↦ rw (d, found_dead m.sessions m.active h i e d) refl
        | inr d ↦ rw (d, only_dead m.sessions m.active i d) refl
      ]
