-- ===== src/Route/Pattern.antt =====
-- internal/route/target.go: the path patterns of a public exposure, and the test whether a request
-- path is exposed, with its rounds of percent-decoding. `path_unescape` and `escaped_path` are
-- url.PathUnescape and URL.EscapedPath of package net/url, the latter for a URL that has a path only.
pub mod Safety
use routeup.Base.{
  Text, ltb, leb, ◌==◌, if◌then◌else◌, any, Result, ok, ◌>>=◌, ◌>>◌, fail_if, codes, text_eq, ℕ,
  zero, suc, ◌+◌, ◌-◌, ◌*◌, ◌/◌, ◌%◌, Bool, true, false, not, ◌&&◌, ◌||◌, Option, none, some, List,
  [], ◌∷◌, ◌++◌,
}
use routeup.Strings.{
  Unicode, to_lower, trim_space, valid_string, has_control, has_prefix, cut_suffix, has_suffix,
  contains_byte, contains_any, split, count_byte,
}
use routeup.Route.Target.{target_path_matches, trim_path_slash, rooted, root}

pub data PatternError : Type 0 where
  bad_characters path_required no_leading_slash reserved_character misplaced_star : PatternError
  duplicate_pattern : Text → PatternError

abbrev pub all_paths : Text
all_paths = codes "/*"

-- The prefix before a trailing wildcard, normalised.
unfoldable pub normalize_prefix : Text → Text
normalize_prefix prefix =
    if text_eq prefix []
    then all_paths
    else (let trimmed = trim_path_slash prefix in
        if text_eq trimmed root then all_paths else trimmed ++ all_paths)

-- The last statements of normalizePathPattern.
unfoldable pub normalize_shape : Text → Text
unfolding normalize_prefix
normalize_shape pattern = elim (cut_suffix all_paths pattern) [
  | some prefix ↦ normalize_prefix prefix
  | none ↦ trim_path_slash pattern
]

-- normalizePathPattern after the test for an empty pattern.
unfoldable pub normalize_trimmed : Text → Result PatternError Text
normalize_trimmed pattern = if text_eq pattern all_paths then ok pattern else do
  fail_if (not (has_prefix root pattern)) no_leading_slash
  fail_if (contains_any (codes "?#") pattern) reserved_character
  fail_if
      (contains_byte b'*' pattern
        && (not (has_suffix all_paths pattern) || not (count_byte b'*' pattern == 1)))
      misplaced_star
  ok (normalize_shape pattern)

-- func normalizePathPattern
unfoldable pub normalize_path_pattern : Unicode → Text → Result PatternError Text
unfolding normalize_trimmed
normalize_path_pattern u raw = do
  fail_if (not (valid_string u raw) || has_control u raw) bad_characters
  let pattern = trim_space u raw
  fail_if (text_eq pattern []) path_required
  normalize_trimmed pattern

-- The loop of NormalizePathPatterns: the patterns seen, those still to come.
unfoldable pub normalize_patterns_from :
    Unicode → List Text → List Text → Result PatternError (List Text)
normalize_patterns_from u seen [] = ok []
normalize_patterns_from u seen (p ∷ ps) = do
  normalized ← normalize_path_pattern u p
  fail_if (any (text_eq normalized) seen) (duplicate_pattern normalized)
  rest ← normalize_patterns_from u (normalized ∷ seen) ps
  ok (normalized ∷ rest)

-- func NormalizePathPatterns
unfoldable pub normalize_path_patterns : Unicode → List Text → Result PatternError (List Text)
unfolding normalize_patterns_from
normalize_path_patterns u ps = normalize_patterns_from u [] ps

-- func ambiguousDecodedPath
unfoldable pub ambiguous_decoded_path : Text → Bool
ambiguous_decoded_path path =
    contains_byte 92 path
    || any (λ s. text_eq s (codes ".") || text_eq s (codes "..")) (split b'/' path)

abbrev is_hex : ℕ → Bool
is_hex c = leb b'0' c && leb c b'9' || leb b'a' c && leb c b'f' || leb b'A' c && leb c b'F'

abbrev unhex : ℕ → ℕ
unhex c = if leb c b'9' then c - b'0' else if leb b'a' c then c - b'a' + 10 else c - b'A' + 10

abbrev prepend : ℕ → Option Text → Option Text
prepend c none = none
prepend c (some s) = some (c ∷ s)

-- url.PathUnescape
unfoldable pub path_unescape : Text → Option Text
path_unescape [] = some []
path_unescape (c ∷ []) = if c == b'%' then none else some (c ∷ [])
path_unescape (c ∷ d ∷ []) =
    let rest = prepend c (path_unescape (d ∷ [])) in if c == b'%' then none else rest
path_unescape (c ∷ d ∷ e ∷ s) =
    let rest = prepend c (path_unescape (d ∷ e ∷ s)) in
    let decoded = prepend (unhex d * 16 + unhex e) (path_unescape s) in
    if c == b'%' then (if is_hex d && is_hex e then decoded else none) else rest

-- A byte that URL.EscapedPath leaves as it is.
abbrev is_path_byte : ℕ → Bool
is_path_byte c =
    leb b'a' c && leb c b'z'
    || leb b'A' c && leb c b'Z'
    || leb b'0' c && leb c b'9'
    || contains_byte c (codes "-_.~$&+,/:;=@")

abbrev hex_digit : ℕ → ℕ
hex_digit n = if ltb n 10 then n + b'0' else n - 10 + b'A'

-- URL.EscapedPath
unfoldable pub escaped_path : Text → Text
escaped_path [] = []
escaped_path (c ∷ s) =
    let rest = escaped_path s in
    if is_path_byte c then c ∷ rest else b'%' ∷ hex_digit (c / 16) ∷ hex_digit (c % 16) ∷ rest

-- strings.Contains
unfoldable pub contains_text : Text → Text → Bool
contains_text p [] = text_eq p []
contains_text p (c ∷ s) = has_prefix p (c ∷ s) || contains_text p s

-- The loop of unambiguousRequestPath, with the rounds that are left.
unfoldable pub decodes_safely : Unicode → ℕ → Text → Bool
decodes_safely u zero escaped = false
decodes_safely u (suc n) escaped =
    let lower = to_lower u escaped in
    if contains_text (codes "%2f") lower || contains_text (codes "%5c") lower
    then false
    else elim (path_unescape escaped) [
      | none ↦ false
      | some decoded ↦
          if text_eq decoded escaped
          then true
          else if ambiguous_decoded_path decoded
          then false
          else decodes_safely u n decoded
    ]

-- func unambiguousRequestPath
unfoldable pub unambiguous_request_path : Unicode → Text → Text → Bool
unambiguous_request_path u path escaped =
    if ambiguous_decoded_path path
    then false
    else decodes_safely u 3 (if text_eq escaped [] then escaped_path path else escaped)

-- One pattern of PathAllowed's second loop.
unfoldable pub pattern_covers : Text → Text → Bool
pattern_covers path pattern = elim (cut_suffix all_paths pattern) [
  | some prefix ↦ target_path_matches prefix path
  | none ↦ text_eq path pattern
]

-- func PathAllowed
unfoldable pub path_allowed : Unicode → List Text → Text → Text → Bool
path_allowed u [] path escaped = true
path_allowed u (p ∷ ps) path escaped =
    if any (text_eq all_paths) (p ∷ ps)
    then true
    else if not (unambiguous_request_path u (rooted path) escaped)
    then false
    else any (pattern_covers (rooted path)) (p ∷ ps)
