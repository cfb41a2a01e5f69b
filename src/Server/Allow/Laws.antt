-- ===== src/Server/Allow/Laws.antt =====
-- What allow patterns accept, and the round trip through their text.
use routeup.Server.Host.Laws.{
  IsDnsName, validate_dns_name_sound, validate_dns_name_complete, dns-IsHostChar, IsHostChar,
  host_chars-IsLow, host_chars-IsSolid,
}
use routeup.Strings.Laws.{Lacks, cut_prefix-append, cut_suffix-eq_some, cut_suffix-append}
use routeup.Base.{
  Text, ok, text_eq_iff, ◌≡◌, ◌≢◌, ◌↔◌, true, [], ◌∷◌, ◌++◌, arith, Option-cases, All, refl, ap,
  ◌∙◌, inl, inr,
}
use routeup.Strings.{Unicode, to_lower, trim_space, is_space, cut_suffix}
use routeup.Strings.Lower.{to_lower_of_IsLow}
use routeup.Strings.Trim.{trim_space_of_IsSolid}
use routeup.Server.Allow.{AllowPattern, wildcard, parse_allow_pattern, pattern_string, matches}

-- A parsed pattern's base is a DNS name.
pub parse_allow_pattern_sound :
    (u : Unicode) (raw : Text) (p : AllowPattern)
    → parse_allow_pattern u raw ≡ ok p
    → IsDnsName p.suffix
unfolding parse_allow_pattern
parse_allow_pattern_sound u raw p h = ground (arith, validate_dns_name_sound p.suffix)

clean_wildcard :
    (u : Unicode) (s : Text)
    → All IsHostChar s
    → to_lower u (trim_space u (wildcard ++ s)) ≡ wildcard ++ s
unfolding is_space
clean_wildcard u s h =
    ap (to_lower u) (
      trim_space_of_IsSolid u (wildcard ++ s)
        ((refl, refl), ((refl, refl), host_chars-IsSolid s h)))
    ∙ to_lower_of_IsLow u (wildcard ++ s) ((refl, refl), ((refl, refl), host_chars-IsLow s h))

-- A pattern with a DNS name for its base is parsed back from its text, whatever Unicode's tables say.
pub parse_allow_pattern-pattern_string :
    (u : Unicode) (p : AllowPattern)
    → IsDnsName p.suffix
    → parse_allow_pattern u (pattern_string p) ≡ ok p
unfolding parse_allow_pattern pattern_string
parse_allow_pattern-pattern_string u p d = ground (
  arith,
  clean_wildcard u p.suffix (dns-IsHostChar p.suffix d),
  cut_prefix-append wildcard p.suffix,
  validate_dns_name_complete p.suffix d,
  text_eq_iff (wildcard ++ p.suffix) [],
)

-- What a pattern covers: one label without a dot, then a dot and the pattern's base.
pub record Under (base host : Text) : Type 0 where
  pub label : Text
  pub some_byte : label ≢ []
  pub single : Lacks b'.' label
  pub split_host : host ≡ label ++ (b'.' ∷ base)

host_ne : (l base : Text) → l ++ (b'.' ∷ base) ≢ []
host_ne [] base = ground arith
host_ne (c ∷ l) base = ground arith

-- A pattern whose base is not empty matches the hosts that, trimmed and lowered, are one label under its base, and no other.
pub matches_iff :
    (u : Unicode) (p : AllowPattern) (host : Text)
    → p.suffix ≢ []
    → (matches u p host ≡ true) ↔ Under p.suffix (to_lower u (trim_space u host))
unfolding matches
matches_iff u p raw ne =
    let host = to_lower u (trim_space u raw) in
    let cut = cut_suffix (b'.' ∷ p.suffix) host in
    (
      λ h. elim (Option-cases cut) [
        | inl missed ↦ absurd (ground (arith, missed, h))
        | inr (l, found) ↦ record {
          label = l;
          some_byte = ground (arith, found, h, text_eq_iff l []);
          single = ground (arith, found, h);
          split_host = cut_suffix-eq_some (b'.' ∷ p.suffix) host l found;
        }
      ],
      λ w. ground (
        arith,
        text_eq_iff p.suffix [],
        ne,
        text_eq_iff host [],
        host_ne w.label p.suffix,
        w.split_host,
        cut_suffix-append (b'.' ∷ p.suffix) w.label,
        text_eq_iff w.label [],
        w.some_byte,
        w.single,
      ),
    )
