-- ===== src/Agent/Api/Listing.antt =====
-- What the list of routes says about public tunnels.
use routeup.Base.{
  Text, Bool-cases, get_elem?, In, eq_ℤ, eq_ℤ_iff, text_eq, text_eq_iff, Map, lookup, IsMap, ℕ, ◌≡◌,
  ◌⊎◌, inl, inr, false, ◌&&◌, some, List, [], ◌∷◌, arith, Option-cases, text_eq_refl, Lacks,
  lookup_of_Lacks, refl, sym, subst, map, none,
}
use routeup.Agent.Registry.{Claim, values, list}
use routeup.Agent.Registry.Laws.{list-Sorted}
use routeup.Agent.Tunnels.{Manager, Session}
use routeup.Agent.Tunnels.Invariant.{Inv, Serves}
use routeup.Agent.Api.{Agent, active_sessions, exposure_of, annotated, listed, handle_list}

-- A live session that serves its host.
pub record Live (m : Manager) (s : Session) : Type 0 where
  pub id : ℕ
  pub active : lookup s.host m.active ≡ some id
  pub known : get_elem? m.sessions id ≡ some s
  pub unfinished : s.done ≡ false

-- A live session of the claim's owner, for the claim's route.
pub record Exposing (m : Manager) (claim : Claim) (s : Session) : Type 0 where
  pub live : Live m s
  pub same_owner : s.owner_pid ≡ claim.owner_pid
  pub same_route : s.route ≡ claim.name

-- What a route of the list shows: a registered claim, with the host, the paths and the state of a
-- live session of its owner and for its route; or as it was registered, where there is no such session.
pub record Shown (a : Agent) (d : Claim) : Type 0 where
  pub claim : Claim
  pub registered : In claim (values a.reg)
  pub shows :
      ((d ≡ claim) × ((s : Session) → ¬ Exposing a.tunnels claim s))
      ⊎ ((s : Session) × Exposing a.tunnels claim s
          × (d.public_host ≡ s.host)
          × (d.public_paths ≡ s.paths)
          × (d.public_state ≡ s.state)
          × (d ≡ annotated claim (some s)))

Found : Manager → Map ℕ → Session → Type 0
Found m hosts s =
    (h : Text) × (i : ℕ) × (lookup h hosts ≡ some i) × (get_elem? m.sessions i ≡ some s)

-- What stands behind an entry stands under it still.
lookup-behind :
    (host h : Text) (j i : ℕ) (hosts : Map ℕ)
    → Lacks host hosts
    → lookup h hosts ≡ some i
    → lookup h ((host, j) ∷ hosts) ≡ some i
unfolding lookup
lookup-behind host h j i hosts l e = elim (Bool-cases (text_eq host h)) [
  | inr b ↦ rw (b, e) refl
  | inl b ↦
      let same = (text_eq_iff host h).0 b in
      absurd (ground (arith, e, lookup_of_Lacks host hosts l, same))
]

Found-behind :
    (m : Manager) (host : Text) (j : ℕ) (hosts : Map ℕ) (s : Session)
    → Lacks host hosts
    → Found m hosts s
    → Found m ((host, j) ∷ hosts) s
unfolding Found
Found-behind m host j hosts s l (h, i, e, q) = (h, i, lookup-behind host h j i hosts l e, q)

active_sessions-In :
    (m : Manager) (hosts : Map ℕ) (s : Session)
    → IsMap hosts
    → In s (active_sessions m.sessions hosts)
    → Found m hosts s
unfolding active_sessions lookup Found
active_sessions-In m [] s k i = absurd i
active_sessions-In m ((host, j) ∷ hosts) s k i = elim (Option-cases (get_elem? m.sessions j)) [
  | inl q ↦
      Found-behind m host j hosts s k.0
        (active_sessions-In m hosts s k.1 (subst (In s) (rw (active_sessions, q) refl) i))
  | inr (t, q) ↦
      first t q (active_sessions-In m hosts s k.1)
        (subst (In s) {y = t ∷ active_sessions m.sessions hosts} (rw (active_sessions, q) refl) i)
]
  where
    first :
        (t : Session)
        → get_elem? m.sessions j ≡ some t
        → (In s (active_sessions m.sessions hosts) → Found m hosts s)
        → In s (t ∷ active_sessions m.sessions hosts)
        → Found m ((host, j) ∷ hosts) s
    first t q later (inl e) = (host, j, rw (text_eq_refl host) refl, rw e q)
    first t q later (inr r) = Found-behind m host j hosts s k.0 (later r)

exposure_of-In :
    (c : Claim) (ss : List Session) (s : Session)
    → exposure_of c ss ≡ some s
    → In s ss × (s.owner_pid ≡ c.owner_pid) × (s.route ≡ c.name)
unfolding exposure_of
exposure_of-In c [] s h = cc
exposure_of-In c (t ∷ ss) s h =
    elim (Bool-cases (eq_ℤ t.owner_pid c.owner_pid && text_eq t.route c.name)) [
      | inl b ↦ ground (arith, h, b, eq_ℤ_iff t.owner_pid c.owner_pid, text_eq_iff t.route c.name)
      | inr b ↦ let (i, p, r) = exposure_of-In c ss s (ground (arith, h, b)) in (inr i, p, r)
    ]

Found-Live : (m : Manager) (s : Session) → Inv m → Found m m.active s → Live m s
unfolding Found
Found-Live m s v (h, i, e, q) =
    let (n, host, d) = subst (Serves h) q (v.active_ok h i e) in
    record { id = i; active = rw host e; known = q; unfinished = d }

In-active_sessions :
    (m : Manager) (hosts : Map ℕ) (s : Session)
    → Found m hosts s
    → In s (active_sessions m.sessions hosts)
unfolding active_sessions lookup Found
In-active_sessions m [] s (h, i, e, q) = cc
In-active_sessions m ((host, j) ∷ hosts) s (h, i, e, q) = elim (Bool-cases (text_eq host h)) [
  | inl b ↦
      let found : get_elem? m.sessions j ≡ some s =
        subst (λ k. get_elem? m.sessions k ≡ some s) (ground (arith, e, b)) q in
      subst (In s) {x = s ∷ active_sessions m.sessions hosts} (rw (active_sessions, found) refl)
        (inl refl)
  | inr b ↦
      let later = In-active_sessions m hosts s (h, i, (rw b at e), q) in
      elim (Option-cases (get_elem? m.sessions j)) [
        | inl n ↦
            subst (In s) {x = active_sessions m.sessions hosts} (rw (active_sessions, n) refl) later
        | inr (t, n) ↦
            subst (In s) {x = t ∷ active_sessions m.sessions hosts} (rw (active_sessions, n) refl)
              (inr later)
      ]
]

-- A claim that is found no session has none among those that were searched.
exposure_of-none :
    (c : Claim) (ss : List Session) (s : Session)
    → exposure_of c ss ≡ none
    → s.owner_pid ≡ c.owner_pid
    → s.route ≡ c.name
    → ¬ In s ss
unfolding exposure_of
exposure_of-none c [] s h p r i = i
exposure_of-none c (t ∷ ss) s h p r (inl e) =
    ground (arith, h, p, r, e, eq_ℤ_iff t.owner_pid c.owner_pid, text_eq_iff t.route c.name)
exposure_of-none c (t ∷ ss) s h p r (inr i) = exposure_of-none c ss s (ground (arith, h)) p r i

Live-active : (m : Manager) (s : Session) → Live m s → In s (active_sessions m.sessions m.active)
unfolding Found
Live-active m s l = In-active_sessions m m.active s (s.host, l.id, l.active, l.known)

exposed_Shown :
    (a : Agent) (c : Claim)
    → Inv a.tunnels
    → In c (values a.reg)
    → Shown a (annotated c (exposure_of c (active_sessions a.tunnels.sessions a.tunnels.active)))
exposed_Shown a c v i =
    let exposures = active_sessions a.tunnels.sessions a.tunnels.active in
    elim (Option-cases (exposure_of c exposures)) [
      | inl q ↦ rw q (record {
        claim = c;
        registered = i;
        shows = inl (
          refl,
          λ s x.
              exposure_of-none c exposures s q x.same_owner x.same_route
                (Live-active a.tunnels s x.live),
        );
      })
      | inr (s, q) ↦
          let (m, p, r) = exposure_of-In c exposures s q in
          let live =
            Found-Live a.tunnels s v (active_sessions-In a.tunnels a.tunnels.active s v.keys m) in
          let x : Exposing a.tunnels c s = record { live = live; same_owner = p; same_route = r } in
          rw q (record { claim = c; registered = i; shows = inr (s, x, refl, refl, refl, refl) })
    ]

In-map :
    (f : Claim → Claim) (d : Claim) (cs : List Claim)
    → In d (map f cs)
    → (c : Claim) × In c cs × (d ≡ f c)
In-map f d [] i = absurd i
In-map f d (c ∷ cs) (inl e) = (c, inl refl, e)
In-map f d (c ∷ cs) (inr i) = let (b, j, e) = In-map f d cs i in (b, inr j, e)

listed-inj : (cs ds : List Claim) → listed cs ≡ listed ds → cs ≡ ds
listed-inj cs ds e = cc

-- Where the invariant of the tunnels holds, each route that is listed is a registered claim: with the
-- host, the paths and the state of a live session that has the claim's owner and is for the claim's
-- route; or just as it was registered, its own public host included, where no live session is so.
pub handle_list-Shown :
    (a : Agent) (ds : List Claim) (d : Claim)
    → Inv a.tunnels
    → handle_list a ≡ listed ds
    → In d ds
    → Shown a d
unfolding handle_list
handle_list-Shown a ds d v h i =
    let exposures = active_sessions a.tunnels.sessions a.tunnels.active in
    let f = λ (c : Claim). annotated c (exposure_of c exposures) in
    let (c, j, e) = In-map f d (list a.reg) (subst (In d) (sym (listed-inj _ ds h)) i) in
    subst (Shown a) (sym e) (exposed_Shown a c v (((list-Sorted a.reg).1 c).0 j))
