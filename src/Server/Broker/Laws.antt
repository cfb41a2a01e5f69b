-- ===== src/Server/Broker/Laws.antt =====
-- The two steps of Hold: the charge of a limiter, and the decision with the hold.
use routeup.Base.{
  Result, ok, err, ℕ, ◌+◌, ◌≡◌, ◌∷◌, arith, Result-cases, Text, refl, inl, inr, Bool-cases,
  wrap-eq-ok, text_eq, text_eq_iff, ◌≢◌, ◌⊎◌, [],
}
use routeup.Strings.{Unicode}
use routeup.Server.Limiter.{Rate, allow}
use routeup.Server.Holds.{RouteHold, hold_route}
use routeup.Server.Holds.Blocking.{Held, hold_route-Held}
use routeup.Server.Tokens.{Faults as TokenFaults, verify_token, Tables, Token}
use routeup.Server.Tokens.Laws.{Verified, verify_token_sound}
use routeup.Server.Authorize.{
  Decision, AuthorizeError, Authorizer, authenticate_error, authenticate_token, authorize_token,
  authorize,
}
use routeup.Server.Broker.{
  Broker, RouteLease, ClaimFailure, StoreFaults, hold_decided, count_refused, count_accepted,
  Answer, hold, rate_limited, anon_key, invalid_key, token_key, count_limited, hold_anon,
  hold_token,
}

authenticate_token-Verified :
    (sha256_hex : Text → Text) (u : Unicode) (f : TokenFaults) (db : Tables) (secret : Text)
    (tok : Token)
    → authenticate_token sha256_hex u f db secret ≡ ok tok
    → Verified (sha256_hex secret) db tok
unfolding authenticate_token
authenticate_token-Verified sha256_hex u f db secret tok h =
    verify_token_sound sha256_hex u f db secret tok
      (wrap-eq-ok authenticate_error (verify_token sha256_hex u f db secret) h)

module _ (rate : Rate) where
  -- A refusal leaves the store, and the certificates, as they were.
  pub record Untouched (k k' : Broker rate) : Type 0 where
    pub holds : k'.holds ≡ k.holds
    pub tokens : k'.tokens ≡ k.tokens
    pub ensured : k'.ensured ≡ k.ensured
    pub accepted : k'.metrics.accepted ≡ k.metrics.accepted

  -- A lease is a hold of the decided host, which HoldRoute made.
  pub record Leased (d : Decision) (now : ℕ) (k k' : Broker rate) (lease : RouteLease)
      : Type 0 where
    pub row : RouteHold
    pub host : lease.host ≡ d.host
    pub generation : lease.generation ≡ row.held_at
    pub held : Held now k.holds d.hold_req k'.holds row
    pub tokens : k'.tokens ≡ k.tokens
    pub ensured : k'.ensured ≡ d.base ∷ k.ensured
    pub accepted : k'.metrics.accepted ≡ k.metrics.accepted + 1

  pub hold_decided-err :
      (f : StoreFaults) (now : ℕ) (r : Result AuthorizeError Decision) (k : Broker rate)
      (e : ClaimFailure)
      → (hold_decided rate f now r k).1 ≡ err e
      → Untouched k (hold_decided rate f now r k).0
  unfolding hold_decided
  hold_decided-err f now (err x) k e h = record {
    holds = refl;
    tokens = refl;
    ensured = refl;
    accepted = refl;
  }
  hold_decided-err f now (ok d) k e h =
      elim (Result-cases (hold_route f.of_holds now k.holds d.hold_req)) [
        | inl ((table, row), good) ↦ absurd (ground (arith, good, h))
        | inr (x, bad) ↦
            let same : (hold_decided rate f now (ok d) k).0 ≡ count_refused rate k =
              ground (arith, bad) in
            rw same (record { holds = refl; tokens = refl; ensured = refl; accepted = refl })
      ]

  pub hold_decided-ok :
      (f : StoreFaults) (now : ℕ) (r : Result AuthorizeError Decision) (k : Broker rate)
      (lease : RouteLease)
      → (hold_decided rate f now r k).1 ≡ ok lease
      → (d : Decision) × (r ≡ ok d) × Leased d now k (hold_decided rate f now r k).0 lease
  unfolding hold_decided
  hold_decided-ok f now (err x) k lease h = absurd (ground (arith, h))
  hold_decided-ok f now (ok d) k lease h =
      elim (Result-cases (hold_route f.of_holds now k.holds d.hold_req)) [
        | inr (x, bad) ↦ absurd (ground (arith, bad, h))
        | inl ((table, row), good) ↦
            let same : (hold_decided rate f now (ok d) k).0
                ≡ count_accepted rate (record k { holds = table; ensured = d.base ∷ k.ensured }) =
              ground (arith, good) in
            (
              d,
              refl,
              rw same (record {
                row = row;
                host = ground (arith, good, h);
                generation = ground (arith, good, h);
                held = hold_route-Held f.of_holds now k.holds table d.hold_req row good;
                tokens = refl;
                ensured = refl;
                accepted = refl;
              }),
            )
      ]

  -- Which key a claim is charged under, and on which limiter: an anonymous claim under one key, one
  -- with a bad token under another, and one with a good token under the token's id.
  abbrev pub Charged : (Text → Text) → ℕ → Text → Broker rate → Broker rate → Type 0
  Charged sha256_hex t token k k' =
      ((token ≡ []) × (k' ≡ record k { anon_limiter = (allow rate anon_key t k.anon_limiter).0 }))
      ⊎ ((token ≢ [])
          × (k' ≡ record k { claim_limiter = (allow rate invalid_key t k.claim_limiter).0 }))
      ⊎ ((tok : Token) × Verified (sha256_hex token) k.tokens tok
          × (k' ≡ record k { claim_limiter = (allow rate (token_key tok) t k.claim_limiter).0 }))

  module _ (sha256_hex : Text → Text) (u : Unicode) (f : StoreFaults) (limit_now now : ℕ)
      (a : Authorizer) where
    abbrev pub run : Text → Text → Broker rate → Answer rate
    run token route k = hold rate sha256_hex u f limit_now now a token route k

    abbrev pub decision : Text → Text → Broker rate → Result AuthorizeError Decision
    decision token route k = authorize sha256_hex u f.of_tokens k.tokens a token route

    -- Hold charges one limiter, and then either refuses with status 429 or holds what Authorize decides.
    abbrev pub Shape : Text → Text → Broker rate → Type 0
    Shape token route k =
        (k' : Broker rate) × Charged sha256_hex limit_now token k k'
        × ((run token route k ≡ (count_limited rate k', err (rate_limited 429)))
            ⊎ (run token route k ≡ hold_decided rate f now (decision token route k) k'))

    pub hold-Shape : (token route : Text) (k : Broker rate) → Shape token route k
    unfolding hold hold_anon hold_token authorize authorize_token
    hold-Shape token route k = elim (Bool-cases (text_eq token [])) [
      | inl none_given ↦ elim (Bool-cases (allow rate anon_key limit_now k.anon_limiter).1) [
        | inl allowed ↦ (
          _,
          inl ((text_eq_iff token []).0 none_given, refl),
          inr (ground (arith, none_given, allowed)),
        )
        | inr refused ↦ (
          _,
          inl ((text_eq_iff token []).0 none_given, refl),
          inl (ground (arith, none_given, refused)),
        )
      ]
      | inr given ↦
          elim (Result-cases (authenticate_token sha256_hex u f.of_tokens k.tokens token)) [
            | inr (e, bad) ↦
                let some_token : token ≢ [] = ground (arith, given, text_eq_iff token []) in
                elim (Bool-cases (allow rate invalid_key limit_now k.claim_limiter).1) [
                  | inl allowed ↦
                      (_, inr (inl (some_token, refl)), inr (ground (arith, given, bad, allowed)))
                  | inr refused ↦
                      (_, inr (inl (some_token, refl)), inl (ground (arith, given, bad, refused)))
                ]
            | inl (tok, good) ↦
                let w =
                  authenticate_token-Verified sha256_hex u f.of_tokens k.tokens token tok good in
                elim (Bool-cases (allow rate (token_key tok) limit_now k.claim_limiter).1) [
                  | inl allowed ↦
                      (_, inr (inr (tok, w, refl)), inr (ground (arith, given, good, allowed)))
                  | inr refused ↦
                      (_, inr (inr (tok, w, refl)), inl (ground (arith, given, good, refused)))
                ]
          ]
    ]
