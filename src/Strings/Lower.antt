-- ===== src/Strings/Lower.antt =====
-- Lowering and trimming leave alone a text of lower-case letters, digits, dots and hyphens.
use routeup.Base.{Text, ltb, leb, ◌≡◌, refl, true, false, ◌&&◌, [], ◌∷◌, map, arith, All, ℕ}
use routeup.Strings.{Unicode, is_ascii, lower_byte, to_lower}

-- A byte that lowering leaves alone.
abbrev pub IsLow : ℕ → Type 0
IsLow c = (ltb c 128 ≡ true) × (leb b'A' c && leb c b'Z' ≡ false)

is_ascii_of_IsLow : (s : Text) → All IsLow s → is_ascii s ≡ true
unfolding is_ascii
is_ascii_of_IsLow [] h = refl
is_ascii_of_IsLow (c ∷ s) h = ground (arith, is_ascii_of_IsLow s)

map-lower_byte : (s : Text) → All IsLow s → map lower_byte s ≡ s
unfolding lower_byte
map-lower_byte [] h = refl
map-lower_byte (c ∷ s) h = ground (arith, map-lower_byte s)

pub to_lower_of_IsLow : (u : Unicode) (s : Text) → All IsLow s → to_lower u s ≡ s
unfolding to_lower
to_lower_of_IsLow u s h = rw (is_ascii_of_IsLow s h) (map-lower_byte s h)
