-- ===== src/Strings/Laws.antt =====
-- Laws of cutting, splitting and joining texts.
use Prim.Native.Nat.{ℕ}
use mathlib.Core.Option
use routeup.Base.{
  Text, text_eq, text_eq_iff, text_eq_refl, ◌==◌, length, length-append, ◌≡◌, refl, ap, true, false,
  some, List, [], ◌∷◌, ◌++◌, arith, Bool-cases, inl, inr, All, ◌≢◌, ◌↔◌,
}
use routeup.Strings.{cut_prefix, cut_suffix, has_suffix, contains_byte, split, join, extend_head}

pub cut_prefix-eq_some : (p s r : Text) → cut_prefix p s ≡ some r → s ≡ p ++ r
unfolding cut_prefix
cut_prefix-eq_some [] s r h = ground arith
cut_prefix-eq_some (p ∷ ps) [] r h = cc
cut_prefix-eq_some (p ∷ ps) (c ∷ s) r h = ground (arith, cut_prefix-eq_some ps s r)

pub cut_prefix-append : (p r : Text) → cut_prefix p (p ++ r) ≡ some r
unfolding cut_prefix
cut_prefix-append [] r = refl
cut_prefix-append (p ∷ ps) r = ground (arith, cut_prefix-append ps r)

pub cut_suffix-eq_some : (p s r : Text) → cut_suffix p s ≡ some r → s ≡ r ++ p
unfolding cut_suffix
cut_suffix-eq_some p [] r h = ground (arith, text_eq_iff [] p)
cut_suffix-eq_some p (c ∷ s) r h = elim (Bool-cases (text_eq (c ∷ s) p)) [
  | inl e ↦ ground (arith, text_eq_iff (c ∷ s) p)
  | inr e ↦
      let (q, cut, same) = (Option.map-eq-some_iff _ _).0 (rw e at h) in
      rw (← same) (ap (λ t. c ∷ t) (cut_suffix-eq_some p s q cut))
]

longer_ne : (c : ℕ) (s p : Text) → text_eq (c ∷ (s ++ p)) p ≡ false
longer_ne c s p = elim (Bool-cases (text_eq (c ∷ (s ++ p)) p)) [
  | inl e ↦
      absurd (omega (arith, ap length ((text_eq_iff (c ∷ (s ++ p)) p).0 e), length-append {0} s p))
  | inr e ↦ e
]

pub cut_suffix-append : (p r : Text) → cut_suffix p (r ++ p) ≡ some r
unfolding cut_suffix
cut_suffix-append [] [] = refl
cut_suffix-append (c ∷ p) [] = rw text_eq_refl
cut_suffix-append p (c ∷ r) = rw (longer_ne c r p, cut_suffix-append p r)

-- A suffix is found exactly where the text ends in it.
pub cut_suffix_iff : (p s r : Text) → (cut_suffix p s ≡ some r) ↔ (s ≡ r ++ p)
cut_suffix_iff p s r = (cut_suffix-eq_some p s r, λ e. rw e (cut_suffix-append p r))

pub has_suffix-append : (p r : Text) → has_suffix p (r ++ p) ≡ true
unfolding has_suffix
has_suffix-append p r = rw cut_suffix-append

pub split-ne-nil : (b : ℕ) (s : Text) → split b s ≢ []
unfolding split
split-ne-nil b [] h = cc
split-ne-nil b (c ∷ s) h = ground arith

extend_head-join : (b c : ℕ) (ls : List Text) → ls ≢ [] → join b (extend_head c ls) ≡ c ∷ join b ls
unfolding join
extend_head-join b c [] n = absurd (n refl)
extend_head-join b c (l ∷ []) n = refl
extend_head-join b c (l ∷ m ∷ ms) n = refl

cons-join : (b : ℕ) (ls : List Text) → ls ≢ [] → join b ([] ∷ ls) ≡ b ∷ join b ls
unfolding join
cons-join b [] n = absurd (n refl)
cons-join b (m ∷ ms) n = refl

-- Joining the parts of a split gives the text back.
pub join-split : (b : ℕ) (s : Text) → join b (split b s) ≡ s
unfolding split
join-split b [] = unfold join in refl
join-split b (c ∷ s) = elim (Bool-cases (c == b)) [
  | inl e ↦ rw (e, cons-join b (split b s) (split-ne-nil b s), join-split b s) (ground arith)
  | inr e ↦ rw (e, extend_head-join b c (split b s) (split-ne-nil b s), join-split b s)
]

abbrev pub Lacks : ℕ → Text → Type 0
Lacks b s = contains_byte b s ≡ false

pub split_of_Lacks : (b : ℕ) (s : Text) → Lacks b s → split b s ≡ s ∷ []
unfolding split contains_byte
split_of_Lacks b [] h = refl
split_of_Lacks b (c ∷ s) h = ground (arith, split_of_Lacks b s)

split-append : (b : ℕ) (s t : Text) → Lacks b s → split b (s ++ (b ∷ t)) ≡ s ∷ split b t
unfolding split contains_byte
split-append b [] t h = ground arith
split-append b (c ∷ s) t h = ground (arith, split-append b s t)

-- Parts that do not hold the separator come back from their join.
pub split-join :
    (b : ℕ) (l : Text) (ls : List Text)
    → All (Lacks b) (l ∷ ls)
    → split b (join b (l ∷ ls)) ≡ l ∷ ls
unfolding join
split-join b l [] h = split_of_Lacks b l h.0
split-join b l (m ∷ ms) h = rw (split-append b l (join b (m ∷ ms)) h.0, split-join b m ms h.1)
