-- ===== src/Route/Target/Normal.antt =====
-- What NormalizeTargets promises of the targets that it returns.
use routeup.Base.{
  Text, any, ℤ, pos_part, neg_part, ok, text_eq, ◌≤◌, ◌≡◌, false, List, [], ◌∷◌, arith, All,
  Result-cases, refl, inl, inr,
}
use routeup.Strings.{Unicode}
use routeup.Route.Target.{Target, normalize_target, normalize_from, normalize_targets}

-- Each target is normalised on its own, in order.
abbrev pub AllNormalized : Unicode → List Target → List Target → Type 0
AllNormalized u [] [] = Unit
AllNormalized u (t ∷ ts) (v ∷ vs) = (normalize_target u t ≡ ok v) × AllNormalized u ts vs
AllNormalized u _ _ = ⊥

-- No target's path is among the texts given, or is that of a later target.
abbrev pub DistinctFrom : List Text → List Target → Type 0
DistinctFrom seen [] = Unit
DistinctFrom seen (v ∷ vs) = (any (text_eq v.path) seen ≡ false) × DistinctFrom (v.path ∷ seen) vs

pub record IsPort (p : ℤ) : Type 0 where
  pub lower : 1 ≤ pos_part p
  pub upper : pos_part p ≤ 65535
  pub signed : neg_part p ≡ 0

-- The parts of a successful round of the loop.
normalize_from-cons :
    (u : Unicode) (seen : List Text) (t : Target) (ts vs : List Target)
    → normalize_from u seen (t ∷ ts) ≡ ok vs
    → (v : Target) × (rest : List Target) × (v ∷ rest ≡ vs)
      × (normalize_target u t ≡ ok v)
      × (any (text_eq v.path) seen ≡ false)
      × (normalize_from u (v.path ∷ seen) ts ≡ ok rest)
unfolding normalize_from
normalize_from-cons u seen t ts vs h = elim (Result-cases (normalize_target u t)) [
  | inr (e, p) ↦ cc (rw p at h)
  | inl (v, p) ↦ elim (Result-cases (normalize_from u (v.path ∷ seen) ts)) [
    | inr (e, q) ↦ absurd (ground arith)
    | inl (rest, q) ↦ (v, rest, ground arith, p, ground arith, q)
  ]
]

normalize_from-lem :
    (u : Unicode) (seen : List Text) (ts vs : List Target)
    → normalize_from u seen ts ≡ ok vs
    → AllNormalized u ts vs × DistinctFrom seen vs
normalize_from-lem u seen [] [] h = (tt, tt)
normalize_from-lem u seen [] (v ∷ vs) h = unfold normalize_from in cc
normalize_from-lem u seen (t ∷ ts) vs h =
    let (v, rest, same, one, new, more) = normalize_from-cons u seen t ts vs h in
    let (ns, ds) = normalize_from-lem u (v.path ∷ seen) ts rest more in
    rw (← same) ((one, ns), (new, ds))

normalize_target-IsPort : (u : Unicode) (t v : Target) → normalize_target u t ≡ ok v → IsPort v.port
unfolding normalize_target
normalize_target-IsPort u t v h = ground arith

AllNormalized-IsPort :
    (u : Unicode) (ts vs : List Target) → AllNormalized u ts vs → All (λ v. IsPort v.port) vs
AllNormalized-IsPort u [] [] h = tt
AllNormalized-IsPort u (t ∷ ts) (v ∷ vs) h =
    (normalize_target-IsPort u t v h.0, AllNormalized-IsPort u ts vs h.1)
AllNormalized-IsPort u [] (v ∷ vs) h = absurd h
AllNormalized-IsPort u (t ∷ ts) [] h = absurd h

-- NormalizeTargets, where it succeeds, normalises each target on its own and keeps their order; the
-- paths of the result are pairwise distinct and its ports lie from 1 to 65535.
pub normalize_targets_sound :
    (u : Unicode) (ts vs : List Target)
    → normalize_targets u ts ≡ ok vs
    → AllNormalized u ts vs × DistinctFrom [] vs × All (λ v. IsPort v.port) vs
unfolding normalize_targets
normalize_targets_sound u ts vs h =
    let (each, distinct) = normalize_from-lem u [] ts vs h in
    (each, distinct, AllNormalized-IsPort u ts vs each)

-- A duplicate is the only error of the list as a whole: targets that are normal one by one, with
-- distinct paths, are accepted.
normalize_from_complete :
    (u : Unicode) (seen : List Text) (ts vs : List Target)
    → AllNormalized u ts vs
    → DistinctFrom seen vs
    → normalize_from u seen ts ≡ ok vs
unfolding normalize_from
normalize_from_complete u seen [] [] h d = refl
normalize_from_complete u seen (t ∷ ts) (v ∷ vs) h d =
    rw (h.0, d.0, normalize_from_complete u (v.path ∷ seen) ts vs h.1 d.1)
normalize_from_complete u seen [] (v ∷ vs) h d = absurd h
normalize_from_complete u seen (t ∷ ts) [] h d = absurd h

-- Targets that are normal one by one, with distinct normal paths, are accepted.
pub normalize_targets_complete :
    (u : Unicode) (ts vs : List Target)
    → AllNormalized u ts vs
    → DistinctFrom [] vs
    → normalize_targets u ts ≡ ok vs
unfolding normalize_targets
normalize_targets_complete u ts vs = normalize_from_complete u [] ts vs
