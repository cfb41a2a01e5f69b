-- ===== src/Strings.antt =====
-- The functions of Go's packages strings, unicode and utf8 that the program calls, over texts as
-- lists of bytes. A text of ASCII bytes is treated as Go treats it, byte by byte. What these
-- functions do to a text with other bytes rests on the tables of package unicode, which are a
-- parameter, the record `Unicode`.
pub mod Laws
pub mod Lower
pub mod Trim
use Prim.Native.Nat.{ℕ, ◌+◌}
use mathlib.Core.Bool.{Bool, true, false, ◌&&◌, ◌||◌}
use mathlib.Core.Option.{Option, none, some}
use mathlib.Core.Option
use mathlib.Core.List.{List, [], ◌∷◌, ◌++◌, map, reverse}
use routeup.Base.{Text, text_eq, leb, ltb, ◌==◌, if◌then◌else◌, any, is_some}

-- What the standard library does with a text that is not all ASCII.
pub record Unicode : Type 0 where
  pub lower : Text → Text
  pub trim : Text → Text
  pub trim_right : Text → Text
  pub valid : Text → Bool
  pub has_control : Text → Bool
  pub equal_fold : Text → Text → Bool

unfoldable pub is_ascii : Text → Bool
is_ascii [] = true
is_ascii (c ∷ s) = ltb c 128 && is_ascii s

unfoldable pub lower_byte : ℕ → ℕ
lower_byte c = if leb b'A' c && leb c b'Z' then c + 32 else c

-- strings.ToLower
unfoldable pub to_lower : Unicode → Text → Text
unfolding is_ascii lower_byte
to_lower u s = if is_ascii s then map lower_byte s else u.lower s

-- strings.EqualFold
unfoldable pub equal_fold : Unicode → Text → Text → Bool
unfolding is_ascii lower_byte
equal_fold u a b =
    if is_ascii a && is_ascii b
    then text_eq (map lower_byte a) (map lower_byte b)
    else u.equal_fold a b

unfoldable pub is_space : ℕ → Bool
is_space c = c == 32 || leb 9 c && leb c 13

-- The end of a text, given backwards.
unfoldable pub trim_end : Unicode → Text → Text
unfolding is_space
trim_end u [] = []
trim_end u (c ∷ r) =
    let rest = trim_end u r in
    if leb 128 c
    then u.trim_right (reverse (c ∷ r))
    else if is_space c
    then rest
    else reverse (c ∷ r)

-- strings.TrimSpace
unfoldable pub trim_space : Unicode → Text → Text
unfolding trim_end
trim_space u [] = []
trim_space u (c ∷ s) =
    let rest = trim_space u s in
    if leb 128 c then u.trim (c ∷ s) else if is_space c then rest else trim_end u (reverse (c ∷ s))

-- utf8.ValidString
unfoldable pub valid_string : Unicode → Text → Bool
unfolding is_ascii
valid_string u s = if is_ascii s then true else u.valid s

-- strings.IndexFunc(s, unicode.IsControl) >= 0
unfoldable pub has_control : Unicode → Text → Bool
unfolding is_ascii
has_control u s = if is_ascii s then any (λ c. ltb c 32 || c == 127) s else u.has_control s

-- strings.CutPrefix
unfoldable pub cut_prefix : Text → Text → Option Text
cut_prefix [] s = some s
cut_prefix (p ∷ ps) [] = none
cut_prefix (p ∷ ps) (c ∷ s) = if p == c then cut_prefix ps s else none

-- strings.HasPrefix
unfoldable pub has_prefix : Text → Text → Bool
unfolding cut_prefix
has_prefix p s = is_some (cut_prefix p s)

-- strings.CutSuffix
unfoldable pub cut_suffix : Text → Text → Option Text
unfolding text_eq
cut_suffix p [] = if text_eq [] p then some [] else none
cut_suffix p (c ∷ s) =
    let rest = Option.map (λ r. c ∷ r) (cut_suffix p s) in
    if text_eq (c ∷ s) p then some [] else rest

-- strings.HasSuffix
unfoldable pub has_suffix : Text → Text → Bool
unfolding cut_suffix
has_suffix p s = is_some (cut_suffix p s)

-- Whether a byte stands in a text.
unfoldable pub contains_byte : ℕ → Text → Bool
contains_byte b [] = false
contains_byte b (c ∷ s) = c == b || contains_byte b s

-- strings.Count of a single byte
unfoldable pub count_byte : ℕ → Text → ℕ
count_byte b [] = 0
count_byte b (c ∷ s) = (if c == b then 1 else 0) + count_byte b s

-- strings.ContainsAny, for a set of ASCII bytes
unfoldable pub contains_any : Text → Text → Bool
unfolding contains_byte
contains_any bs s = any (λ c. contains_byte c bs) s

abbrev pub extend_head : ℕ → List Text → List Text
extend_head c [] = (c ∷ []) ∷ []
extend_head c (l ∷ ls) = (c ∷ l) ∷ ls

-- strings.Split at a separator of one byte
unfoldable pub split : ℕ → Text → List Text
split b [] = [] ∷ []
split b (c ∷ s) = let rest = split b s in if c == b then [] ∷ rest else extend_head c rest

-- strings.Join with a separator of one byte
unfoldable pub join : ℕ → List Text → Text
join b [] = []
join b (l ∷ []) = l
join b (l ∷ m ∷ ms) = l ++ (b ∷ join b (m ∷ ms))
