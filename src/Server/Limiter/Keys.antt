-- ===== src/Server/Limiter/Keys.antt =====
-- The list of keys of the limiter: each key stands in it at most once.
use routeup.Base.{
  Text, if◌then◌else◌, length, any, text_eq, text_eq_iff, suc, ◌≡◌, refl, ap, true, false, ◌||◌,
  List, [], ◌∷◌, ◌++◌, arith,
}
use routeup.Server.Limiter.{remove_key}

abbrev pub Distinct : List Text → Type 0
Distinct [] = Unit
Distinct (k ∷ ks) = (any (text_eq k) ks ≡ false) × Distinct ks

any_text_of : (j k : Text) (ks : List Text) → j ≡ k → any (text_eq j) ks ≡ any (text_eq k) ks
any_text_of j k ks e = ap (λ t. any (text_eq t) ks) e

pub any-remove_key :
    (k j : Text) (ks : List Text)
    → Distinct ks
    → any (text_eq j) (remove_key k ks) ≡ (if text_eq k j then false else any (text_eq j) ks)
unfolding remove_key
any-remove_key k j [] d = ground arith
any-remove_key k j (i ∷ ks) d = ground (
  arith,
  text_eq_iff i k,
  text_eq_iff k j,
  text_eq_iff j i,
  any_text_of i j ks,
  any-remove_key k j ks d.1,
)

pub length-remove_key :
    (k : Text) (ks : List Text)
    → any (text_eq k) ks ≡ true
    → suc (length (remove_key k ks)) ≡ length ks
unfolding remove_key
length-remove_key k [] h = cc
length-remove_key k (i ∷ ks) h =
    ground (arith, text_eq_iff i k, text_eq_iff k i, length-remove_key k ks)

pub remove_key-Distinct : (k : Text) (ks : List Text) → Distinct ks → Distinct (remove_key k ks)
unfolding remove_key
remove_key-Distinct k [] d = tt
remove_key-Distinct k (i ∷ ks) d =
    ground (arith, any-remove_key k i ks d.1, remove_key-Distinct k ks d.1)

pub any-snoc :
    (j k : Text) (ks : List Text)
    → any (text_eq j) (ks ++ k ∷ []) ≡ any (text_eq j) ks || text_eq j k
any-snoc j k [] = ground arith
any-snoc j k (i ∷ ks) = ground (arith, any-snoc j k ks)

pub snoc-Distinct :
    (k : Text) (ks : List Text) → Distinct ks → any (text_eq k) ks ≡ false → Distinct (ks ++ k ∷ [])
snoc-Distinct k [] d h = (refl, tt)
snoc-Distinct k (i ∷ ks) d h =
    ground (arith, any-snoc i k ks, text_eq_iff i k, text_eq_iff k i, snoc-Distinct k ks d.1)
