-- ===== src/Route/Target.antt =====
-- internal/route/target.go: targets, their normal form, and the choice of a target by path prefix.
-- Ports are Go's signed `int`.
pub mod Normal
pub mod Match
use routeup.Base.{
  Text, ltb, ◌==◌, if◌then◌else◌, length, any, ℤ, pos, ltb_ℤ, Result, ok, ◌>>=◌, ◌>>◌, fail_if,
  codes, text_eq, Bool, not, ◌||◌, Option, none, some, List, [], ◌∷◌, ◌++◌, reverse,
}
use routeup.Strings.{Unicode, trim_space, valid_string, has_control, has_prefix, contains_any}

-- type Target
pub record Target : Type 0 where
  pub path : Text
  pub port : ℤ

pub data TargetError : Type 0 where
  bad_characters path_required no_leading_slash reserved_character port_out_of_range : TargetError
  duplicate_path : Text → TargetError

abbrev pub root : Text
root = b'/' ∷ []

-- The loop of trimPathSlash, on the path given backwards.
unfoldable pub trim_slashes : Text → Text
trim_slashes [] = []
trim_slashes (c ∷ []) = c ∷ []
trim_slashes (c ∷ d ∷ r) = let rest = trim_slashes (d ∷ r) in if c == b'/' then rest else c ∷ d ∷ r

-- func trimPathSlash
unfoldable pub trim_path_slash : Text → Text
unfolding trim_slashes
trim_path_slash path = reverse (trim_slashes (reverse path))

-- func normalizeTargetPath
unfoldable pub normalize_target_path : Unicode → Text → Result TargetError Text
normalize_target_path u raw = do
  fail_if (not (valid_string u raw) || has_control u raw) bad_characters
  let path = trim_space u raw
  fail_if (text_eq path []) path_required
  fail_if (not (has_prefix root path)) no_leading_slash
  fail_if (contains_any (codes "?#*") path) reserved_character
  ok (trim_path_slash path)

abbrev pub min_port : ℤ
min_port = pos 1

abbrev pub max_port : ℤ
max_port = pos 65535

-- func NormalizeTarget
unfoldable pub normalize_target : Unicode → Target → Result TargetError Target
normalize_target u t = do
  path ← normalize_target_path u t.path
  fail_if (ltb_ℤ t.port min_port || ltb_ℤ max_port t.port) port_out_of_range
  ok (record { path = path; port = t.port })

-- The loop of NormalizeTargets: the paths seen, the targets still to come.
unfoldable pub normalize_from : Unicode → List Text → List Target → Result TargetError (List Target)
normalize_from u seen [] = ok []
normalize_from u seen (t ∷ ts) = do
  normalized ← normalize_target u t
  fail_if (any (text_eq normalized.path) seen) (duplicate_path normalized.path)
  rest ← normalize_from u (normalized.path ∷ seen) ts
  ok (normalized ∷ rest)

-- func NormalizeTargets
unfoldable pub normalize_targets : Unicode → List Target → Result TargetError (List Target)
unfolding normalize_from
normalize_targets u ts = normalize_from u [] ts

-- func targetPathMatches
unfoldable pub target_path_matches : Text → Text → Bool
target_path_matches prefix path =
    text_eq prefix root || (text_eq path prefix || has_prefix (prefix ++ root) path)

-- The request path with a slash in front, as MatchTarget and PathAllowed read it.
unfoldable pub rooted : Text → Text
rooted path = if has_prefix root path then path else b'/' ∷ path

-- One round of MatchTarget's loop over the best match so far.
unfoldable pub better : Text → Target → Option Target → Option Target
better path target best =
    if target_path_matches target.path path
    then (elim best [
      | none ↦ some target
      | some m ↦ if ltb (length m.path) (length target.path) then some target else some m
    ])
    else best

unfoldable pub match_from : Text → Option Target → List Target → Option Target
unfolding better
match_from path best [] = best
match_from path best (t ∷ ts) = match_from path (better path t best) ts

-- func MatchTarget
unfoldable pub match_target : List Target → Text → Option Target
unfolding match_from rooted
match_target ts path = match_from (rooted path) none ts

-- The loop of PrimaryPort.
unfoldable pub root_port : List Target → Option ℤ
root_port [] = none
root_port (t ∷ ts) = if text_eq t.path root then some t.port else root_port ts

abbrev pub first_port : List Target → ℤ
first_port [] = pos 0
first_port (t ∷ ts) = t.port

-- func PrimaryPort
unfoldable pub primary_port : List Target → ℤ
unfolding root_port
primary_port ts = elim (root_port ts) [ some p ↦ p | none ↦ first_port ts ]
