-- ===== src/Config/Resolve/Precedence.antt =====
-- Which of the sources of a command's targets decides.
use routeup.Base.{
  Text, Bool-cases, Result-cases, In, ℤ, ok, text_eq, text_eq_iff, any, ◌≡◌, ◌⊎◌, inl, inr, refl,
  true, none, some, List, [], ◌∷◌, ◌++◌, arith, subst, Option-cases, set, pos, eq_ℤ, eq_ℤ_iff,
  codes, sym, ◌∙◌, ◌≢◌,
}
use routeup.Strings.{Unicode, trim_space, valid_string, has_control, has_prefix, contains_any}
use routeup.Route.Target.{
  Target, normalize_target, root_port, root, trim_path_slash, normalize_target_path,
  normalize_targets, primary_port,
}
use routeup.Route.Target.Normal.{AllNormalized, DistinctFrom, normalize_targets_sound}
use routeup.Config.Resolve.{
  replace_target, set_target, set_all, at_root, Inputs, atoi, set_port, set_env,
}

-- The targets have the normal form of a given one.
abbrev pub Has : Unicode → Target → List Target → Type 0
Has u t vs =
    (n : Target) × (m : Target) × (normalize_target u t ≡ ok n)
    × (normalize_target u n ≡ ok m)
    × In m vs

-- A nonempty list's last target is among the targets.
abbrev pub HasLast : Unicode → List Target → List Target → Type 0
HasLast u given vs = (before : List Target) × (t : Target) × (given ≡ before ++ t ∷ []) × Has u t vs

In-snoc : (n : Target) (ts : List Target) → In n (ts ++ n ∷ [])
In-snoc n [] = inl refl
In-snoc n (t ∷ ts) = inr (In-snoc n ts)

replace_target-In :
    (u : Unicode) (n : Target) (ts ts' : List Target)
    → replace_target u n ts ≡ ok (some ts')
    → In n ts'
unfolding replace_target
replace_target-In u n [] ts' h = cc
replace_target-In u n (t ∷ ts) ts' h = elim (Result-cases (normalize_target u t)) [
  | inr (e, bad) ↦ absurd (ground (arith, h, bad))
  | inl (existing, good) ↦ elim (Bool-cases (text_eq existing.path n.path)) [
    | inl b ↦ subst (In n) {x = n ∷ ts} (ground (arith, h, good, b)) (inl refl)
    | inr b ↦ elim (Result-cases (replace_target u n ts)) [
      | inr (e, bad) ↦ absurd (ground (arith, h, good, b, bad))
      | inl (none, q) ↦ absurd (ground (arith, h, good, b, q))
      | inl (some rs, q) ↦
          subst (In n) {x = t ∷ rs} (ground (arith, h, good, b, q))
            (inr (replace_target-In u n ts rs q))
    ]
  ]
]

set_target-In :
    (u : Unicode) (ts ts' : List Target) (t : Target)
    → set_target u ts t ≡ ok ts'
    → (n : Target) × (normalize_target u t ≡ ok n) × In n ts'
unfolding set_target
set_target-In u ts ts' t h = elim (Result-cases (normalize_target u t)) [
  | inr (e, bad) ↦ absurd (ground (arith, h, bad))
  | inl (n, good) ↦ elim (Result-cases (replace_target u n ts)) [
    | inr (e, bad) ↦ absurd (ground (arith, h, good, bad))
    | inl (none, q) ↦
        (n, good, subst (In n) {x = ts ++ n ∷ []} (ground (arith, h, good, q)) (In-snoc n ts))
    | inl (some rs, q) ↦ (
      n,
      good,
      subst (In n) {x = rs} (ground (arith, h, good, q)) (replace_target-In u n ts rs q),
    )
  ]
]

-- What setting all of a list leaves: the targets as they were, or the last one in place.
set_all-last :
    (u : Unicode) (given ts ts' : List Target)
    → set_all u ts given ≡ ok ts'
    → ((given ≡ []) × (ts ≡ ts'))
      ⊎ ((before : List Target) × (t : Target) × (n : Target) × (given ≡ before ++ t ∷ [])
          × (normalize_target u t ≡ ok n)
          × In n ts')
unfolding set_all
set_all-last u [] ts ts' h = inl (refl, ground (arith, h))
set_all-last u (g ∷ gs) ts ts' h = elim (Result-cases (set_target u ts g)) [
  | inr (e, bad) ↦ absurd (ground (arith, h, bad))
  | inl (mid, good) ↦ elim (set_all-last u gs mid ts' (ground (arith, h, good))) [
    | inl (none_left, same) ↦
        let (n, p, i) = set_target-In u ts mid g good in
        inr ([], g, n, ground (arith, none_left), p, subst (In n) same i)
    | inr (before, t, n, e, p, i) ↦ inr (g ∷ before, t, n, ground (arith, e), p, i)
  ]
]

AllNormalized-In :
    (u : Unicode) (ts vs : List Target) (n : Target)
    → AllNormalized u ts vs
    → In n ts
    → (m : Target) × (normalize_target u n ≡ ok m) × In m vs
AllNormalized-In u [] vs n a i = absurd i
AllNormalized-In u (t ∷ ts) [] n a i = absurd a
AllNormalized-In u (t ∷ ts) (v ∷ vs) n a (inl e) = (v, rw e a.0, inl refl)
AllNormalized-In u (t ∷ ts) (v ∷ vs) n a (inr i) =
    let (m, p, j) = AllNormalized-In u ts vs n a.1 i in (m, p, inr j)

root_path : (u : Unicode) → normalize_target_path u root ≡ ok root
unfolding normalize_target_path valid_string has_control trim_space has_prefix contains_any
    trim_path_slash text_eq
root_path u = refl

normal_root :
    (u : Unicode) (p : ℤ) (n : Target) → normalize_target u (at_root p) ≡ ok n → n ≡ at_root p
unfolding normalize_target
normal_root u p n h = ground (arith, h, root_path u)

In-seen :
    (m : Target) (seen : List Text) (vs : List Target)
    → DistinctFrom seen vs
    → any (text_eq m.path) seen ≡ true
    → In m vs
    → ⊥
In-seen m seen [] d s i = i
In-seen m seen (v ∷ vs) d s (inl e) = ground (arith, d.0, s, e)
In-seen m seen (v ∷ vs) d s (inr i) = In-seen m (v.path ∷ seen) vs d.1 (ground (arith, s)) i

root_port-In :
    (seen : List Text) (vs : List Target) (p : ℤ)
    → DistinctFrom seen vs
    → In (at_root p) vs
    → root_port vs ≡ some p
unfolding root_port
root_port-In seen [] p d i = absurd i
root_port-In seen (v ∷ vs) p d (inl e) = ground (arith, e, text_eq_iff root root)
root_port-In seen (v ∷ vs) p d (inr i) = elim (Bool-cases (text_eq v.path root)) [
  | inl b ↦ absurd (
      In-seen (at_root p) (v.path ∷ seen) vs d.1
        (ground (arith, text_eq_iff v.path root, text_eq_iff root v.path, b)) i)
  | inr b ↦ rw b (root_port-In (v.path ∷ seen) vs p d.1 i)
]

-- Where the root's port is set and normalised, it is the primary port.
primary_port_root :
    (u : Unicode) (ts vs : List Target) (t n : Target) (p : ℤ)
    → t ≡ at_root p
    → normalize_targets u ts ≡ ok vs
    → normalize_target u t ≡ ok n
    → In n ts
    → primary_port vs ≡ p
unfolding primary_port
primary_port_root u ts vs t n p e v q i =
    let (each, distinct, _) = normalize_targets_sound u ts vs v in
    let (m, r, j) = AllNormalized-In u ts vs n each i in
    let n_root : n ≡ at_root p = normal_root u p n (rw (← e) q) in
    let m_root : m ≡ at_root p =
      normal_root u p m (subst (λ x. normalize_target u x ≡ ok m) n_root r) in
    let found : root_port vs ≡ some p =
      root_port-In [] vs p distinct (subst (λ x. In x vs) m_root j) in
    rw (primary_port, found) refl

last_Has :
    (u : Unicode) (given ts vs before : List Target) (t n : Target)
    → normalize_targets u ts ≡ ok vs
    → given ≡ before ++ t ∷ []
    → normalize_target u t ≡ ok n
    → In n ts
    → HasLast u given vs
last_Has u given ts vs before t n v e q i =
    let (m, r, j) = AllNormalized-In u ts vs n (normalize_targets_sound u ts vs v).0 i in
    (before, t, e, (n, m, q, r, j))

-- The source that decides, the last one that says anything: the --target flags, of which the last
-- one is among the targets; --port, ROUTEUP_PORT, which give the primary port; the targets of the
-- file, of which the last one is among the targets; or the port of the file.
abbrev pub Decided : Unicode → Inputs → List Target → Type 0
Decided u i vs =
    HasLast u i.target_flags vs
    ⊎ ((i.target_flags ≡ []) × (i.port_flag ≢ pos 0) × (primary_port vs ≡ i.port_flag))
    ⊎ ((i.target_flags ≡ [])
        × (i.port_flag ≡ pos 0)
        × (i.env (codes "ROUTEUP_PORT") ≢ [])
        × (atoi (trim_space u (i.env (codes "ROUTEUP_PORT"))) ≡ some (primary_port vs)))
    ⊎ ((i.target_flags ≡ [])
        × (i.port_flag ≡ pos 0)
        × (i.env (codes "ROUTEUP_PORT") ≡ [])
        × HasLast u i.file.targets vs)
    ⊎ ((i.target_flags ≡ [])
        × (i.port_flag ≡ pos 0)
        × (i.env (codes "ROUTEUP_PORT") ≡ [])
        × (i.file.targets ≡ [])
        × (primary_port vs ≡ i.file.port))

-- A port that set_port is given: 0, and nothing is done; or it is set.
set_port-cases :
    (u : Unicode) (ts ts' : List Target) (p : ℤ)
    → set_port u ts p ≡ ok ts'
    → ((p ≡ pos 0) × (ts ≡ ts'))
      ⊎ ((p ≢ pos 0) × (n : Target) × (normalize_target u (at_root p) ≡ ok n) × In n ts')
set_port-cases u ts ts' p h = elim (Bool-cases (eq_ℤ p (pos 0))) [
  | inl b ↦ inl (ground (arith, b, eq_ℤ_iff p (pos 0)), ground (arith, h, b))
  | inr b ↦
      let (n, q, i) = set_target-In u ts ts' (at_root p) (rw b at h) in
      inr (ground (arith, b, eq_ℤ_iff p (pos 0)), n, q, i)
]

set_env-cases :
    (u : Unicode) (ts ts' : List Target) (raw : Text)
    → set_env u ts raw ≡ ok ts'
    → ((raw ≡ []) × (ts ≡ ts'))
      ⊎ ((raw ≢ [])
          × (p : ℤ) × (n : Target) × (atoi (trim_space u raw) ≡ some p)
          × (normalize_target u (at_root p) ≡ ok n)
          × In n ts')
set_env-cases u ts ts' raw h = elim (Bool-cases (text_eq raw [])) [
  | inl b ↦ inl (ground (arith, b, text_eq_iff raw []), ground (arith, h, b))
  | inr b ↦ elim (Option-cases (atoi (trim_space u raw))) [
    | inl q ↦ absurd (ground (arith, h, b, q))
    | inr (p, q) ↦
        let (n, r, i) = set_target-In u ts ts' (at_root p) (rw (b, q) at h) in
        inr (ground (arith, b, text_eq_iff raw []), p, n, q, r, i)
  ]
]

pub chain_Decided :
    (u : Unicode) (i : Inputs) (t1 t2 t3 t4 t5 vs : List Target)
    → set_port u [] i.file.port ≡ ok t1
    → set_all u t1 i.file.targets ≡ ok t2
    → set_env u t2 (i.env (codes "ROUTEUP_PORT")) ≡ ok t3
    → set_port u t3 i.port_flag ≡ ok t4
    → set_all u t4 i.target_flags ≡ ok t5
    → normalize_targets u t5 ≡ ok vs
    → t5 ≢ []
    → Decided u i vs
chain_Decided u i t1 t2 t3 t4 t5 vs h1 h2 h3 h4 h5 v some_left =
    elim (set_all-last u i.target_flags t4 t5 h5) [
      | inr (before, t, n, e, q, j) ↦ inl (last_Has u i.target_flags t5 vs before t n v e q j)
      | inl (f5, e5) ↦ elim (set_port-cases u t3 t4 i.port_flag h4) [
        | inr (set, n, q, j) ↦
            inr (
              inl (f5, set, primary_port_root u t5 vs _ n i.port_flag refl v q (subst (In n) e5 j)))
        | inl (f4, e4) ↦ elim (set_env-cases u t2 t3 (i.env (codes "ROUTEUP_PORT")) h3) [
          | inr (set, p, n, a, q, j) ↦ inr (
              inr (
                inl (
                  f5,
                  f4,
                  set,
                  a ∙ rw (primary_port_root u t5 vs _ n p refl v q (subst (In n) (e4 ∙ e5) j)) refl,
                )))
          | inl (f3, e3) ↦ elim (set_all-last u i.file.targets t1 t2 h2) [
            | inr (before, t, n, e, q, j) ↦ inr (
                inr (
                  inr (
                    inl (
                      f5,
                      f4,
                      f3,
                      last_Has u i.file.targets t5 vs before t n v e q
                          (subst (In n) (e3 ∙ e4 ∙ e5) j),
                    ))))
            | inl (f2, e2) ↦ elim (set_port-cases u [] t1 i.file.port h1) [
              | inr (set, n, q, j) ↦ inr (
                  inr (
                    inr (
                      inr (
                        f5,
                        f4,
                        f3,
                        f2,
                        primary_port_root u t5 vs _ n i.file.port refl v q
                            (subst (In n) (e2 ∙ e3 ∙ e4 ∙ e5) j),
                      ))))
              | inl (f1, e1) ↦ absurd (some_left (sym (e1 ∙ e2 ∙ e3 ∙ e4 ∙ e5)))
            ]
          ]
        ]
      ]
    ]
