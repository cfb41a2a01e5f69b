-- ===== src/Route/Name.antt =====
-- internal/route/name.go and constants.go: parsing of dotted route names; and the reading of a
-- route name from a local host, routeNameFromHost of internal/proxy/local.go. The loop of
-- validateLabel runs over the runes of a label. A byte from 128 up is part of a rune from 128 up or
-- of an invalid one, which are refused alike, so the loop over bytes has the same results.
pub mod Laws
use routeup.Base.{
  ℕ, Text, codes, text_eq, Bool, not, ◌&&◌, ◌||◌, ltb, leb, ◌==◌, if◌then◌else◌, Result, ok,
  fail_if, wrap, List, [], ◌∷◌, ◌++◌, Option, none, some, length, ◌>>◌,
}
use routeup.Strings.{Unicode, to_lower, has_suffix, cut_suffix, split, join}

-- constants.go
abbrev pub local_suffix : Text
local_suffix = codes "localhost"

abbrev pub public_suffix : Text
public_suffix = codes "routeup.dev"

pub data LabelError : Type 0 where
  empty_label label_too_long edge_hyphen invalid_character : LabelError

pub data NameError : Type 0 where
  empty_name name_too_long reserved_local reserved_public : NameError
  invalid_label : LabelError → NameError

-- type Name
pub record Name : Type 0 where
  pub labels : List Text

unfoldable pub is_valid_label_char : ℕ → Bool
is_valid_label_char r = leb b'a' r && leb r b'z' || leb b'0' r && leb r b'9' || r == b'-'

abbrev pub first_byte : Text → ℕ
first_byte [] = 0
first_byte (c ∷ s) = c

abbrev pub last_byte : Text → ℕ
last_byte [] = 0
last_byte (c ∷ []) = c
last_byte (c ∷ d ∷ s) = last_byte (d ∷ s)

unfoldable pub check_chars : Text → Result LabelError (Unit {0})
unfolding is_valid_label_char
check_chars [] = ok tt
check_chars (c ∷ s) = do fail_if (not (is_valid_label_char c)) invalid_character; check_chars s

unfoldable pub validate_label : Text → Result LabelError (Unit {0})
unfolding check_chars
validate_label label = do
  fail_if (length label == 0) empty_label
  fail_if (ltb 63 (length label)) label_too_long
  fail_if (first_byte label == b'-' || last_byte label == b'-') edge_hyphen
  check_chars label

unfoldable pub validate_labels : List Text → Result NameError (Unit {0})
unfolding validate_label
validate_labels [] = ok tt
validate_labels (l ∷ ls) = do wrap invalid_label (validate_label l); validate_labels ls

abbrev pub ends_in : Text → Text → Bool
ends_in suffix s = text_eq s suffix || has_suffix (b'.' ∷ suffix) s

-- func Parse
unfoldable pub parse : Unicode → Text → Result NameError Name
parse u raw = do
  fail_if (text_eq raw []) empty_name
  let s = to_lower u raw
  fail_if (ltb 253 (length s)) name_too_long
  fail_if (ends_in local_suffix s) reserved_local
  fail_if (ends_in public_suffix s) reserved_public
  validate_labels (split b'.' s)
  ok (record { labels = split b'.' s })

-- func (n Name) String
unfoldable pub to_string : Name → Text
to_string n = join b'.' n.labels

-- func (n Name) LocalHost
unfoldable pub local_host : Name → Text
unfolding to_string
local_host n = to_string n ++ (b'.' ∷ local_suffix)

-- routeNameFromHost
unfoldable pub route_name_from_host : Unicode → Text → Option Text
route_name_from_host u raw =
    let host = to_lower u raw in
    elim (cut_suffix (b'.' ∷ local_suffix) host) [
      | none ↦ none
      | some name ↦ if text_eq name [] then none else some name
    ]
