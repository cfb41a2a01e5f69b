-- ===== src/Base/Sort.antt =====
-- The order of Go's strings, byte by byte, and sorting by a text, as sort.Slice and SQL's ORDER BY
-- do it: insertion sort gives the list that they give, up to the order of equal keys.
use mathlib.Core.Path.{◌≡◌, refl}
use mathlib.Core.Logic.{inl, inr, ◌↔◌}
use mathlib.Core.Bool.{Bool, true, false}
use mathlib.Core.List.{List, [], ◌∷◌}
use native.Mathlib.Omega.{arith}
use routeup.Base.Tests.{ltb, ◌==◌, if◌then◌else◌, Bool-cases}
use routeup.Base.Bytes.{Text}
use routeup.Base.Lists.{In}

unfoldable pub text_leb : Text → Text → Bool
text_leb [] s = true
text_leb (x ∷ xs) [] = false
text_leb (x ∷ xs) (y ∷ ys) =
    let rest = text_leb xs ys in if ltb x y then true else if x == y then rest else false

pub text_leb-total : (a b : Text) → text_leb a b ≡ false → text_leb b a ≡ true
unfolding text_leb
text_leb-total [] b h = cc
text_leb-total (x ∷ xs) [] h = refl
text_leb-total (x ∷ xs) (y ∷ ys) h = ground (arith, text_leb-total xs ys)

module _ {A : Type 0} (key : A → Text) where
  unfoldable pub insert_by : A → List A → List A
  insert_by a [] = a ∷ []
  insert_by a (x ∷ xs) =
      let rest = insert_by a xs in if text_leb (key a) (key x) then a ∷ x ∷ xs else x ∷ rest

  unfoldable pub sort_by : List A → List A
  unfolding insert_by
  sort_by [] = []
  sort_by (x ∷ xs) = insert_by x (sort_by xs)

  -- Each element's key is at most the next one's.
  abbrev pub Sorted : List A → Type 0
  Sorted [] = Unit
  Sorted (x ∷ []) = Unit
  Sorted (x ∷ y ∷ ys) = (text_leb (key x) (key y) ≡ true) × Sorted (y ∷ ys)

  insert_by-Sorted : (a : A) (xs : List A) → Sorted xs → Sorted (insert_by a xs)
  unfolding insert_by
  insert_by-Sorted a [] h = tt
  insert_by-Sorted a (x ∷ []) h = ground (arith, text_leb-total (key a) (key x))
  insert_by-Sorted a (x ∷ y ∷ ys) h =
      ground (arith, text_leb-total (key a) (key x), insert_by-Sorted a (y ∷ ys) h.1)

  pub sort_by-Sorted : (xs : List A) → Sorted (sort_by xs)
  unfolding sort_by
  sort_by-Sorted [] = tt
  sort_by-Sorted (x ∷ xs) = insert_by-Sorted x (sort_by xs) (sort_by-Sorted xs)

  In-insert_by : (a b : A) (xs : List A) → In b (insert_by a xs) ↔ In b (a ∷ xs)
  unfolding insert_by
  In-insert_by a b [] = (λ i. i, λ i. i)
  In-insert_by a b (x ∷ xs) = elim (Bool-cases (text_leb (key a) (key x))) [
    | inl e ↦ rw e (λ i. i, λ i. i)
    | inr e ↦ rw e (ground (arith, In-insert_by a b xs))
  ]

  -- Sorting keeps the elements.
  pub In-sort_by : (b : A) (xs : List A) → In b (sort_by xs) ↔ In b xs
  unfolding sort_by
  In-sort_by b [] = (λ i. i, λ i. i)
  In-sort_by b (x ∷ xs) = ground (arith, In-insert_by x b (sort_by xs), In-sort_by b xs)
