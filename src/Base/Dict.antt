-- ===== src/Base/Dict.antt =====
-- Go's `map` with string keys, as an association list in which `insert` keeps each key once. The
-- program's results never depend on the order of a map.
use Prim.Native.Nat.{suc}
use mathlib.Core.Path.{◌≡◌, refl, subst}
use mathlib.Core.Logic.{inl, inr}
use mathlib.Core.Bool.{true, false}
use mathlib.Core.Option.{Option, none, some}
use mathlib.Core.List.{List, [], ◌∷◌}
use native.Mathlib.Omega.{arith}
use routeup.Base.Lists.{length}
use routeup.Base.Tests.{is_some, if◌then◌else◌, Bool-cases}
use routeup.Base.Bytes.{Text, text_eq, text_eq_iff}

abbrev pub Map {ℓ} : Type ℓ → Type ℓ
Map V = List (Text × V)

module _ {ℓ} {V : Type ℓ} where
  unfoldable pub lookup : Text → Map V → Option V
  lookup k [] = none
  lookup k ((j, v) ∷ m) = if text_eq j k then some v else lookup k m

  unfoldable pub insert : Text → V → Map V → Map V
  insert k v [] = (k, v) ∷ []
  insert k v ((j, w) ∷ m) = if text_eq j k then (k, v) ∷ m else (j, w) ∷ insert k v m

  unfoldable pub delete : Text → Map V → Map V
  delete k [] = []
  delete k ((j, w) ∷ m) = let rest = delete k m in if text_eq j k then rest else (j, w) ∷ rest

  pub lookup-insert :
      (k j : Text) (v : V) (m : Map V)
      → lookup j (insert k v m) ≡ (if text_eq k j then some v else lookup j m)
  unfolding lookup insert
  lookup-insert k j v [] = refl
  lookup-insert k j v ((i, w) ∷ m) =
      ground (arith, text_eq_iff k j, text_eq_iff i k, text_eq_iff i j, lookup-insert k j v m)

  pub lookup-delete :
      (k j : Text) (m : Map V) → lookup j (delete k m) ≡ (if text_eq k j then none else lookup j m)
  unfolding lookup delete
  lookup-delete k j [] = ground arith
  lookup-delete k j ((i, w) ∷ m) =
      ground (arith, text_eq_iff k j, text_eq_iff i k, text_eq_iff i j, lookup-delete k j m)

  -- The key stands in no entry.
  abbrev pub Lacks : Text → Map V → Type ℓ
  Lacks k [] = Unit
  Lacks k ((j, v) ∷ m) = (text_eq j k ≡ false) × Lacks k m

  -- Each key stands once.
  abbrev pub IsMap : Map V → Type ℓ
  IsMap [] = Unit
  IsMap ((k, v) ∷ m) = Lacks k m × IsMap m

  pub lookup_of_Lacks : (k : Text) (m : Map V) → Lacks k m → lookup k m ≡ none
  unfolding lookup
  lookup_of_Lacks k [] h = refl
  lookup_of_Lacks k ((j, v) ∷ m) h = ground (arith, lookup_of_Lacks k m h.1)

  pub Lacks-insert :
      (j k : Text) (v : V) (m : Map V) → text_eq k j ≡ false → Lacks j m → Lacks j (insert k v m)
  unfolding insert
  Lacks-insert j k v [] n h = (n, tt)
  Lacks-insert j k v ((i, w) ∷ m) n h = ground (arith, Lacks-insert j k v m n h.1)

  pub insert-IsMap : (k : Text) (v : V) (m : Map V) → IsMap m → IsMap (insert k v m)
  unfolding insert
  insert-IsMap k v [] h = (tt, tt)
  insert-IsMap k v ((i, w) ∷ m) h = elim (Bool-cases (text_eq i k)) [
    | inl e ↦ rw e (subst_key ((text_eq_iff i k).0 e) h.0, h.1)
    | inr e ↦ rw e (Lacks-insert i k v m (flip e) h.0, insert-IsMap k v m h.1)
  ]
    where
      subst_key : i ≡ k → Lacks i m → Lacks k m
      subst_key p l = rw (← p) l

      flip : text_eq i k ≡ false → text_eq k i ≡ false
      flip e = ground (arith, text_eq_iff i k, text_eq_iff k i)

  pub Lacks-delete : (j k : Text) (m : Map V) → Lacks j m → Lacks j (delete k m)
  unfolding delete
  Lacks-delete j k [] h = tt
  Lacks-delete j k ((i, w) ∷ m) h = ground (arith, Lacks-delete j k m h.1)

  pub delete-IsMap : (k : Text) (m : Map V) → IsMap m → IsMap (delete k m)
  unfolding delete
  delete-IsMap k [] h = tt
  delete-IsMap k ((i, w) ∷ m) h = ground (arith, delete-IsMap k m h.1, Lacks-delete i k m h.0)

  pub length-insert_new :
      (k : Text) (v : V) (m : Map V) → lookup k m ≡ none → length (insert k v m) ≡ suc (length m)
  unfolding lookup insert
  length-insert_new k v [] h = refl
  length-insert_new k v ((j, w) ∷ m) h = ground (arith, length-insert_new k v m)

  pub length-insert_old :
      (k : Text) (v : V) (m : Map V)
      → is_some (lookup k m) ≡ true
      → length (insert k v m) ≡ length m
  unfolding lookup insert
  length-insert_old k v [] h = cc
  length-insert_old k v ((j, w) ∷ m) h = ground (arith, length-insert_old k v m)

  delete_of_Lacks : (k : Text) (m : Map V) → Lacks k m → delete k m ≡ m
  unfolding delete
  delete_of_Lacks k [] h = refl
  delete_of_Lacks k ((j, w) ∷ m) h = ground (arith, delete_of_Lacks k m h.1)

  pub length-delete :
      (k : Text) (m : Map V)
      → IsMap m
      → is_some (lookup k m) ≡ true
      → suc (length (delete k m)) ≡ length m
  unfolding lookup delete
  length-delete k [] d h = cc
  length-delete k ((j, w) ∷ m) d h = elim (Bool-cases (text_eq j k)) [
    | inl e ↦
        let same : delete k m ≡ m =
          delete_of_Lacks k m (subst (λ t. Lacks t m) ((text_eq_iff j k).0 e) d.0) in
        ground (arith, e, same)
    | inr e ↦ ground (arith, e, length-delete k m d.1)
  ]
