-- ===== src/Server/Host.antt =====
-- internal/server/host.go: public hosts and the checks of DNS names. As in internal/route/name.go,
-- the loop over the runes of a label has the same results over its bytes.
pub mod Laws
use routeup.Base.{
  Text, ltb, leb, ◌==◌, if◌then◌else◌, length, Result, ok, ◌>>◌, fail_if, wrap, text_eq, ℕ, Bool,
  not, ◌&&◌, ◌||◌, Option, none, some, List, [], ◌∷◌, ◌++◌,
}
use routeup.Strings.{Unicode, to_lower, trim_space, cut_suffix, split}
use routeup.Route.Name.{
  LabelError, empty_label, label_too_long, edge_hyphen, invalid_character, first_byte, last_byte,
}

-- func DeriveTokenHost
unfoldable pub derive_token_host : Unicode → Text → Text → Text
derive_token_host u route base = to_lower u route ++ (b'.' ∷ to_lower u base)

-- func DeriveNamespaceHost
unfoldable pub derive_namespace_host : Unicode → Text → Text → Text → Text
derive_namespace_host u label namespace domain =
    to_lower u label ++ (b'.' ∷ (to_lower u namespace ++ (b'.' ∷ to_lower u domain)))

-- The last of the labels that Split returns, of which there is at least one.
abbrev pub last_label : List Text → Text
last_label [] = []
last_label (l ∷ []) = l
last_label (l ∷ m ∷ ls) = last_label (m ∷ ls)

abbrev pub nonempty : Text → Option Text
nonempty [] = none
nonempty (c ∷ s) = some (c ∷ s)

-- func ImmediateChildLabel
unfoldable pub immediate_child_label : Unicode → Text → Text → Option Text
immediate_child_label u raw_host raw_domain =
    let host = to_lower u (trim_space u raw_host) in
    let domain = to_lower u (trim_space u raw_domain) in
    elim (cut_suffix (b'.' ∷ domain) host) [
      | none ↦ none
      | some rest ↦ if text_eq rest [] then none else nonempty (last_label (split b'.' rest))
    ]

-- func isLabelChar
unfoldable pub is_label_char : ℕ → Bool
is_label_char r = leb b'a' r && leb r b'z' || leb b'0' r && leb r b'9' || r == b'-'

-- The loop of validateLabel.
unfoldable pub check_label : Text → Result LabelError (Unit {0})
unfolding is_label_char
check_label [] = ok tt
check_label (c ∷ s) = do fail_if (not (is_label_char c)) invalid_character; check_label s

-- func validateLabel
unfoldable pub validate_label : Text → Result LabelError (Unit {0})
unfolding check_label
validate_label label = do
  fail_if (length label == 0) empty_label
  fail_if (ltb 63 (length label)) label_too_long
  fail_if (first_byte label == b'-' || last_byte label == b'-') edge_hyphen
  check_label label

pub data DnsError : Type 0 where
  empty_name name_too_long : DnsError
  invalid_label : LabelError → DnsError

-- The loop of validateDNSName.
unfoldable pub validate_labels : List Text → Result DnsError (Unit {0})
unfolding validate_label
validate_labels [] = ok tt
validate_labels (l ∷ ls) = do wrap invalid_label (validate_label l); validate_labels ls

-- func validateDNSName
unfoldable pub validate_dns_name : Text → Result DnsError (Unit {0})
unfolding validate_labels
validate_dns_name s = do
  fail_if (text_eq s []) empty_name
  fail_if (ltb 253 (length s)) name_too_long
  validate_labels (split b'.' s)
