-- ===== src/Server/Tokens.antt =====
-- internal/server/tokens.go: the tokens and their allow patterns. The tables tokens and
-- token_allow_patterns are lists of rows. The secret and the id are random texts given to
-- CreateToken, or none where crypto/rand fails; the SHA-256 of a secret, in hex, is a parameter.
-- Which statements fail is an argument. A transaction takes effect as a whole or not at all. The
-- queries of one method see one state of the tables.
pub mod Laws
use routeup.Base.{
  Text, ltb, if◌then◌else◌, is_some, keep, any, Result, ok, err, ◌>>=◌, ◌>>◌, fail_if, wrap, codes,
  text_eq, sort_by, ℕ, ◌+◌, Bool, true, false, not, ◌&&◌, ◌||◌, Option, none, some, List, [], ◌∷◌,
  ◌++◌, map,
}
use routeup.Strings.{Unicode, trim_space, has_prefix}
use routeup.Server.Allow.{AllowPattern, PatternError, parse_allow_pattern, pattern_string}

abbrev pub token_prefix : Text
token_prefix = codes "sk_routeup_"

-- type Token
pub record Token : Type 0 where
  pub id : Text
  pub name : Text
  pub patterns : List AllowPattern
  pub created_at : ℕ
  pub revoked_at : Option ℕ

-- A row of the table tokens.
pub record TokenRow : Type 0 where
  pub id : Text
  pub name : Text
  pub token_hash : Text
  pub created_at : ℕ
  pub revoked_at : Option ℕ

-- A row of the table token_allow_patterns.
pub record PatternRow : Type 0 where
  pub token_id : Text
  pub pattern : Text

pub record Tables : Type 0 where
  pub tokens : List TokenRow
  pub patterns : List PatternRow

pub data TokenError : Type 0 where
  name_required pattern_required no_randomness : TokenError
  token_invalid query_failed write_failed : TokenError
  stored_pattern : PatternError → TokenError

-- Which statements fail.
pub record Faults : Type 0 where
  pub query_token : Bool
  pub query_patterns : Bool
  pub query_bases : Bool
  pub writing : Bool

-- func (t Token) Revoked
abbrev pub revoked : Token → Bool
revoked t = is_some t.revoked_at

abbrev pub required : {A : Type 0} → TokenError → Option A → Result TokenError A
required e none = err e
required e (some a) = ok a

-- A new row would break the key `id` or the unique `token_hash`.
abbrev pub clashes : Text → Text → TokenRow → Bool
clashes id hash row = text_eq row.id id || text_eq row.token_hash hash

abbrev pub is_empty : {A : Type 0} → List A → Bool
is_empty [] = true
is_empty (x ∷ xs) = false

abbrev pub pattern_row : Text → AllowPattern → PatternRow
pattern_row id p = record { token_id = id; pattern = pattern_string p }

-- A row for the secret that has not been revoked.
abbrev pub is_match : Text → TokenRow → Bool
is_match hash row = text_eq row.token_hash hash && not (is_some row.revoked_at)

-- The first row that meets a condition.
unfoldable pub find : (TokenRow → Bool) → List TokenRow → Option TokenRow
find p [] = none
find p (row ∷ rows) = let rest = find p rows in if p row then some row else rest

-- The loop of loadPatterns.
unfoldable pub parse_patterns : Unicode → List PatternRow → Result TokenError (List AllowPattern)
parse_patterns u [] = ok []
parse_patterns u (row ∷ rows) = do
  p ← wrap stored_pattern (parse_allow_pattern u row.pattern)
  rest ← parse_patterns u rows
  ok (p ∷ rest)

-- func (s *Store) loadPatterns
unfoldable pub load_patterns :
    Unicode → Faults → Tables → Text → Result TokenError (List AllowPattern)
unfolding parse_patterns
load_patterns u f db token_id = do
  fail_if f.query_patterns query_failed
  parse_patterns u (sort_by (λ r. r.pattern) (keep (λ r. text_eq r.token_id token_id) db.patterns))

-- The statement of RevokeToken, with the number of rows affected.
unfoldable pub revoke_rows : Text → ℕ → List TokenRow → List TokenRow × ℕ
revoke_rows id now [] = ([], 0)
revoke_rows id now (row ∷ rows) =
    let (rest, n) = revoke_rows id now rows in
    if text_eq row.id id && not (is_some row.revoked_at)
    then (record row { revoked_at = some now } ∷ rest, n + 1)
    else (row ∷ rest, n)

-- func (s *Store) RevokeToken
unfoldable pub revoke_token : Faults → ℕ → Tables → Text → Result TokenError (Tables × Bool)
unfolding revoke_rows
revoke_token f now db id = do
  fail_if f.writing write_failed
  let (rows, n) = revoke_rows id now db.tokens
  ok (record db { tokens = rows }, ltb 0 n)

-- Whether a pattern's token is active: the join and the condition of TokenBases.
abbrev pub is_live : List TokenRow → PatternRow → Bool
is_live rows r = any (λ t. text_eq t.id r.token_id && not (is_some t.revoked_at)) rows

-- TokenBases' loop: the bases seen, the rows still to come; a malformed pattern is skipped.
unfoldable pub bases_from : Unicode → List Text → List PatternRow → List Text
bases_from u seen [] = seen
bases_from u seen (r ∷ rows) = elim (parse_allow_pattern u r.pattern) [
  | err e ↦ bases_from u seen rows
  | ok p ↦ bases_from u (if any (text_eq p.suffix) seen then seen else seen ++ p.suffix ∷ []) rows
]

-- func (s *Store) TokenBases
unfoldable pub token_bases : Unicode → Faults → Tables → Result TokenError (List Text)
unfolding bases_from
token_bases u f db = do
  fail_if f.query_bases query_failed
  ok (bases_from u [] (keep (is_live db.tokens) db.patterns))

module _ (sha256_hex : Text → Text) where
  -- func (s *Store) CreateToken
  unfoldable pub create_token :
      Unicode
      → Faults
      → ℕ
      → Option Text
      → Option Text
      → Tables
      → Text
      → List AllowPattern
      → Result TokenError (Tables × Text × Text)
  create_token u f now random_secret random_id db name patterns = do
    fail_if (text_eq (trim_space u name) []) name_required
    fail_if (is_empty patterns) pattern_required
    random ← required no_randomness random_secret
    let secret = token_prefix ++ random
    id ← required no_randomness random_id
    let row : TokenRow = record {
      id = id;
      name = name;
      token_hash = sha256_hex secret;
      created_at = now;
      revoked_at = none;
    }
    fail_if (f.writing || any (clashes id (sha256_hex secret)) db.tokens) write_failed
    ok (
      record {
        tokens = db.tokens ++ row ∷ [];
        patterns = db.patterns ++ map (pattern_row id) patterns;
      },
      id,
      secret,
    )

  -- func (s *Store) VerifyToken
  unfoldable pub verify_token : Unicode → Faults → Tables → Text → Result TokenError Token
  unfolding find
  verify_token u f db secret = do
    fail_if (not (has_prefix token_prefix secret)) token_invalid
    fail_if f.query_token query_failed
    row ← required token_invalid (find (is_match (sha256_hex secret)) db.tokens)
    patterns ← load_patterns u f db row.id
    ok (record {
      id = row.id;
      name = row.name;
      patterns = patterns;
      created_at = row.created_at;
      revoked_at = none;
    })
