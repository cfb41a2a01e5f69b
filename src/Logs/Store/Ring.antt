-- ===== src/Logs/Store/Ring.antt =====
-- The ring seen from its offsets: the window of live entries, and the slot of an identifier.
use routeup.Logs.Entry.{Entry}
use mathlib.Core.Path.{subst₂}
use native.Mathlib.Nat.{mod-eq_of_lt, mod-eq-sub-mod, mod-lt}
use routeup.Base.{
  ℕ, ◌+◌, ◌%◌, ◌≤◌, ◌<◌, ◌≡◌, ◌≢◌, ◌⊎◌, arith, if◌then◌else◌, get_elem?, Text, text_eq, zero, suc,
  refl, Option, none, some, List, [], ◌∷◌, length, ◌++◌,
}

abbrev pub slot : ℕ → ℕ → ℕ → ℕ
slot cap start offset = (start + offset) % cap

pub slot_cases :
    (cap start offset : ℕ)
    → start < cap
    → offset < cap
    → ((start + offset < cap) × (slot cap start offset ≡ start + offset))
      ⊎ ((cap ≤ start + offset) × (slot cap start offset + cap ≡ start + offset))
slot_cases cap start offset h k = grind (arith, mod-eq_of_lt, mod-eq-sub-mod)

-- Different offsets have different slots.
pub slot_injective :
    (cap start a b : ℕ) → start < cap → a < b → b < cap → slot cap start a ≢ slot cap start b
slot_injective cap start a b h k l e =
    omega (arith, e, slot_cases cap start a h (omega arith), slot_cases cap start b h l)

pub slot-lt : (cap start offset : ℕ) → 0 < cap → slot cap start offset < cap
slot-lt cap start offset h = mod-lt (start + offset) h

pub slot_next :
    (cap start offset : ℕ)
    → start < cap
    → offset + 1 < cap
    → slot cap (slot cap start 1) offset ≡ slot cap start (offset + 1)
slot_next cap start offset h k = omega (
  arith,
  slot_cases cap start 1 h (omega arith),
  slot_cases cap (slot cap start 1) offset (slot-lt cap start 1 (omega arith)) (omega arith),
  slot_cases cap start (offset + 1) h k,
)

-- The entries in the slots of the offsets from `offset` on, oldest first.
unfoldable pub window : ℕ → List Entry → ℕ → ℕ → ℕ → List Entry
window cap es start offset zero = []
window cap es start offset (suc n) = elim (get_elem? es (slot cap start offset)) [
  | none ↦ window cap es start (offset + 1) n
  | some e ↦ e ∷ window cap es start (offset + 1) n
]

-- The first slot of these offsets that holds an identifier.
unfoldable pub locate : ℕ → List Entry → Text → ℕ → ℕ → ℕ → Option ℕ
locate cap es id start offset zero = none
locate cap es id start offset (suc n) = elim (get_elem? es (slot cap start offset)) [
  | none ↦ locate cap es id start (offset + 1) n
  | some e ↦
      if text_eq e.id id
      then some (slot cap start offset)
      else locate cap es id start (offset + 1) n
]

-- The first entry of a list with an identifier.
unfoldable pub find : Text → List Entry → Option Entry
find id [] = none
find id (e ∷ es) = if text_eq e.id id then some e else find id es

-- Each of these slots is in range.
abbrev pub Filled : ℕ → List Entry → ℕ → ℕ → ℕ → Type 0
Filled cap es start offset zero = Unit
Filled cap es start offset (suc n) =
    ((e : Entry) × (get_elem? es (slot cap start offset) ≡ some e))
    × Filled cap es start (offset + 1) n

abbrev pub fetch : List Entry → Option ℕ → Option Entry
fetch es none = none
fetch es (some i) = get_elem? es i

-- The entry in the located slot is the first one of the window with that identifier.
pub fetch-locate :
    (cap : ℕ) (es : List Entry) (id : Text) (start offset n : ℕ)
    → fetch es (locate cap es id start offset n) ≡ find id (window cap es start offset n)
unfolding locate window find
fetch-locate cap es id start offset zero = refl
fetch-locate cap es id start offset (suc n) =
    ground (arith, fetch-locate cap es id start (offset + 1) n)

pub locate_absent :
    (cap : ℕ) (es : List Entry) (id : Text) (start offset n : ℕ)
    → find id (window cap es start offset n) ≡ none
    → locate cap es id start offset n ≡ none
unfolding locate window find
locate_absent cap es id start offset zero h = refl
locate_absent cap es id start offset (suc n) h =
    ground (arith, locate_absent cap es id start (offset + 1) n)

-- Two runs of offsets see the same: each pair of slots is one slot, with one entry.
abbrev pub Same : ℕ → List Entry → List Entry → ℕ → ℕ → ℕ → ℕ → ℕ → Type 0
Same cap es fs start start' offset offset' n =
    (k : ℕ)
    → k < n
    → (slot cap start (offset + k) ≡ slot cap start' (offset' + k))
      × (get_elem? es (slot cap start (offset + k)) ≡ get_elem? fs (slot cap start' (offset' + k)))

module _ (cap : ℕ) (es fs : List Entry) (start start' : ℕ) where
  Same-head :
      (offset offset' n : ℕ)
      → Same cap es fs start start' offset offset' (suc n)
      → (slot cap start offset ≡ slot cap start' offset')
        × (get_elem? es (slot cap start offset) ≡ get_elem? fs (slot cap start' offset'))
  Same-head offset offset' n h =
      subst₂
        (λ a b.
          (slot cap start a ≡ slot cap start' b)
          × (get_elem? es (slot cap start a) ≡ get_elem? fs (slot cap start' b)))
        (omega arith) (omega arith) (h 0 (omega arith))

  Same-tail :
      (offset offset' n : ℕ)
      → Same cap es fs start start' offset offset' (suc n)
      → Same cap es fs start start' (offset + 1) (offset' + 1) n
  Same-tail offset offset' n h k l =
      subst₂
        (λ a b.
          (slot cap start a ≡ slot cap start' b)
          × (get_elem? es (slot cap start a) ≡ get_elem? fs (slot cap start' b)))
        (omega arith) (omega arith) (h (suc k) (omega arith))

  pub window-Same :
      (offset offset' n : ℕ)
      → Same cap es fs start start' offset offset' n
      → window cap es start offset n ≡ window cap fs start' offset' n
  unfolding window
  window-Same offset offset' zero h = refl
  window-Same offset offset' (suc n) h = ground (
    arith,
    Same-head offset offset' n h,
    window-Same (offset + 1) (offset' + 1) n (Same-tail offset offset' n h),
  )

  pub locate-Same :
      (id : Text) (offset offset' n : ℕ)
      → Same cap es fs start start' offset offset' n
      → locate cap es id start offset n ≡ locate cap fs id start' offset' n
  unfolding locate
  locate-Same id offset offset' zero h = refl
  locate-Same id offset offset' (suc n) h = ground (
    arith,
    Same-head offset offset' n h,
    locate-Same id (offset + 1) (offset' + 1) n (Same-tail offset offset' n h),
  )

pub get_elem?-in_range :
    (es : List Entry) (i : ℕ) → i < length es → (e : Entry) × (get_elem? es i ≡ some e)
get_elem?-in_range [] i h = elim h [ ]
get_elem?-in_range (e ∷ es) zero h = (e, refl)
get_elem?-in_range (e ∷ es) (suc i) h = get_elem?-in_range es i (omega arith)

module _ (cap : ℕ) (es : List Entry) (start : ℕ) (e : Entry) where
  pub window_cons :
      (offset n : ℕ)
      → get_elem? es (slot cap start offset) ≡ some e
      → window cap es start offset (suc n) ≡ e ∷ window cap es start (offset + 1) n
  unfolding window
  window_cons offset n h = ground arith

  pub locate_cons :
      (id : Text) (offset n : ℕ)
      → get_elem? es (slot cap start offset) ≡ some e
      → locate cap es id start offset (suc n) ≡ (
          if text_eq e.id id
          then some (slot cap start offset)
          else locate cap es id start (offset + 1) n)
  unfolding locate
  locate_cons id offset n h = ground arith

  -- One more offset shows one more entry, at the end.
  pub window_snoc :
      (offset n last : ℕ)
      → offset + n ≡ last
      → get_elem? es (slot cap start last) ≡ some e
      → window cap es start offset (suc n) ≡ window cap es start offset n ++ e ∷ []
  unfolding window
  window_snoc offset zero last p h = let q : offset ≡ last = omega arith in rw q (ground (arith, h))
  window_snoc offset (suc n) last p h =
      ground (arith, window_snoc (offset + 1) n last (omega arith) h)

  abbrev pub or_last : Text → ℕ → Option ℕ → Option ℕ
  or_last id i none = if text_eq e.id id then some i else none
  or_last id i (some j) = some j

  pub locate_snoc :
      (id : Text) (offset n last : ℕ)
      → offset + n ≡ last
      → get_elem? es (slot cap start last) ≡ some e
      → locate cap es id start offset (suc n)
        ≡ or_last id (slot cap start last) (locate cap es id start offset n)
  unfolding locate
  locate_snoc id offset zero last p h =
      let q : offset ≡ last = omega arith in rw q (ground (arith, h))
  locate_snoc id offset (suc n) last p h =
      ground (arith, locate_snoc id (offset + 1) n last (omega arith) h)

pub length-window :
    (c : ℕ) (es : List Entry) (start offset n : ℕ)
    → 0 < c
    → length es ≡ c
    → length (window c es start offset n) ≡ n
unfolding window
length-window c es start offset zero h p = refl
length-window c es start offset (suc n) h p =
    let (e, q) = get_elem?-in_range es (slot c start offset) (rw p (slot-lt c start offset h)) in
    ground (arith, length-window c es start (offset + 1) n h p, q)
