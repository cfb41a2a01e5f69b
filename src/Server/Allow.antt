-- ===== src/Server/Allow.antt =====
-- internal/server/allow.go: the grants `*.<suffix>` of a token.
pub mod Laws
use routeup.Base.{
  Text, if◌then◌else◌, Result, ok, err, ◌>>=◌, ◌>>◌, fail_if, wrap, codes, text_eq, ◌*◌, Bool,
  false, not, ◌&&◌, ◌||◌, none, some, [], ◌∷◌, ◌++◌,
}
use routeup.Strings.{Unicode, to_lower, trim_space, cut_prefix, cut_suffix, contains_byte}
use routeup.Server.Host.{DnsError, validate_dns_name}

-- type AllowPattern; its Base is the field
pub record AllowPattern : Type 0 where
  pub suffix : Text

pub data PatternError : Type 0 where
  empty_pattern no_wildcard : PatternError
  invalid_suffix : DnsError → PatternError

abbrev pub wildcard : Text
wildcard = codes "*."

-- The part of an allow pattern after `*.`.
abbrev pub cut_wildcard : Text → Result PatternError Text
cut_wildcard s = elim (cut_prefix wildcard s) [ none ↦ err no_wildcard | some rest ↦ ok rest ]

-- func ParseAllowPattern
unfoldable pub parse_allow_pattern : Unicode → Text → Result PatternError AllowPattern
parse_allow_pattern u raw = do
  let s = to_lower u (trim_space u raw)
  fail_if (text_eq s []) empty_pattern
  rest ← cut_wildcard s
  wrap invalid_suffix (validate_dns_name rest)
  ok (record { suffix = rest })

-- func (p AllowPattern) String
unfoldable pub pattern_string : AllowPattern → Text
pattern_string p = wildcard ++ p.suffix

-- func (p AllowPattern) Matches
unfoldable pub matches : Unicode → AllowPattern → Text → Bool
matches u p raw =
    let host = to_lower u (trim_space u raw) in
    if text_eq p.suffix [] || text_eq host []
    then false
    else elim (cut_suffix (b'.' ∷ p.suffix) host) [
      | none ↦ false
      | some prefix ↦ not (text_eq prefix []) && not (contains_byte b'.' prefix)
    ]
