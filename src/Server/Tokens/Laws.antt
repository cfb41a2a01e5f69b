-- ===== src/Server/Tokens/Laws.antt =====
-- Which secrets are accepted.
use routeup.Base.{
  Text, Option-cases, is_some, keep, All, In, ok, Result-cases, text_eq, text_eq_iff, sort_by, ℕ,
  ◌≡◌, sym, subst, ◌∙◌, ◌≢◌, inl, inr, Bool, true, false, some, List, [], ◌∷◌, arith, Bool-cases,
  refl, ap, not, ◌&&◌,
}
use routeup.Strings.{Unicode}
use routeup.Server.Tokens.{
  Token, find, TokenRow, PatternRow, Tables, Faults, is_match, parse_patterns, load_patterns,
  revoke_rows, revoke_token, verify_token,
}
use routeup.Server.Allow.{AllowPattern, parse_allow_pattern}
use routeup.Server.Allow.Laws.{parse_allow_pattern_sound}
use routeup.Server.Host.Laws.{IsDnsName}

abbrev pub AllDns : List AllowPattern → Type 0
AllDns ps = All (λ p. IsDnsName p.suffix) ps

find-some :
    (p : TokenRow → Bool) (rows : List TokenRow) (row : TokenRow)
    → find p rows ≡ some row
    → In row rows × (p row ≡ true)
unfolding find
find-some p [] row h = cc
find-some p (r ∷ rows) row h = ground (arith, find-some p rows row)

parse_patterns-AllDns :
    (u : Unicode) (rows : List PatternRow) (ps : List AllowPattern)
    → parse_patterns u rows ≡ ok ps
    → AllDns ps
unfolding parse_patterns
parse_patterns-AllDns u [] ps h = let same : [] ≡ ps = ground (arith, h) in subst AllDns same tt
parse_patterns-AllDns u (row ∷ rows) ps h =
    elim (Result-cases (parse_allow_pattern u row.pattern)) [
      | inr (e, bad) ↦ absurd (ground (arith, bad, h))
      | inl (q, good) ↦ elim (Result-cases (parse_patterns u rows)) [
        | inr (e, bad) ↦ absurd (ground (arith, good, bad, h))
        | inl (qs, rest) ↦
            let same : q ∷ qs ≡ ps = ground (arith, good, rest, h) in
            subst AllDns same
              (parse_allow_pattern_sound u row.pattern q good, parse_patterns-AllDns u rows qs rest)
      ]
    ]

-- The row that a secret stands for, and what its token says of it.
pub record Verified (hash : Text) (db : Tables) (tok : Token) : Type 0 where
  pub row : TokenRow
  pub stored : In row db.tokens
  pub same_hash : row.token_hash ≡ hash
  pub unrevoked : is_some row.revoked_at ≡ false
  pub same_id : tok.id ≡ row.id
  pub all_dns : AllDns tok.patterns

module _ (sha256_hex : Text → Text) where
  -- VerifyToken accepts a secret only where an unrevoked row has its hash, and the patterns that it
  -- reads have DNS names for their bases.
  pub verify_token_sound :
      (u : Unicode) (f : Faults) (db : Tables) (secret : Text) (tok : Token)
      → verify_token sha256_hex u f db secret ≡ ok tok
      → Verified (sha256_hex secret) db tok
  unfolding verify_token load_patterns
  verify_token_sound u f db secret tok h =
      elim (Option-cases (find (is_match (sha256_hex secret)) db.tokens)) [
        | inl missed ↦ absurd (ground (arith, missed, h))
        | inr (row, found) ↦
            let rows =
              sort_by (λ r. r.pattern) (keep (λ r. text_eq r.token_id row.id) db.patterns) in
            let (stored, good) = find-some (is_match (sha256_hex secret)) db.tokens row found in
            elim (Result-cases (parse_patterns u rows)) [
              | inr (e, bad) ↦ absurd (ground (arith, found, bad, h))
              | inl (ps, parsed) ↦ record {
                row = row;
                stored = stored;
                same_hash = ground (arith, good, text_eq_iff row.token_hash (sha256_hex secret));
                unrevoked = ground (arith, good);
                same_id = ground (arith, found, parsed, h);
                all_dns =
                    subst AllDns (ground (arith, found, parsed, h))
                      (parse_patterns-AllDns u rows ps parsed);
              }
            ]
      ]

  revoke_rows-revoked :
      (id : Text) (now : ℕ) (rows : List TokenRow) (row : TokenRow)
      → In row (revoke_rows id now rows).0
      → row.id ≡ id
      → is_some row.revoked_at ≡ true
  unfolding revoke_rows
  revoke_rows-revoked id now [] row i e = elim i [ ]
  revoke_rows-revoked id now (r ∷ rows) row i e =
      elim (Bool-cases (text_eq r.id id && not (is_some r.revoked_at))) [
        | inl hit ↦ elim (rw hit at i) [
          | inl same ↦ rw same refl
          | inr later ↦ revoke_rows-revoked id now rows row later e
        ]
        | inr miss ↦ elim (rw miss at i) [
          | inl same ↦ ground (
            arith,
            miss,
            same,
            e,
            text_eq_iff r.id id,
            ap (λ t. t.id) same,
            ap (λ t. t.revoked_at) same,
          )
          | inr later ↦ revoke_rows-revoked id now rows row later e
        ]
      ]

  -- After a token has been revoked, no secret is accepted for it.
  pub revoke_token-verify :
      (u : Unicode) (f g : Faults) (now : ℕ) (db db' : Tables) (id secret : Text) (b : Bool)
      (tok : Token)
      → revoke_token f now db id ≡ ok (db', b)
      → verify_token sha256_hex u g db' secret ≡ ok tok
      → tok.id ≢ id
  unfolding revoke_token
  revoke_token-verify u f g now db db' id secret b tok revoked_ok h e =
      let w = verify_token_sound u g db' secret tok h in
      let same : (revoke_rows id now db.tokens).0 ≡ db'.tokens = ground (arith, revoked_ok) in
      let dead =
        revoke_rows-revoked id now db.tokens w.row (subst (In w.row) (sym same) w.stored)
          (sym w.same_id ∙ e) in
      ground (arith, dead, w.unrevoked)
