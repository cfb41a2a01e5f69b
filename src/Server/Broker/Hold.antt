-- ===== src/Server/Broker/Hold.antt =====
-- What Hold does to the broker's state, granted or refused.
use routeup.Base.{
  Text, Result, ok, err, Result-cases, ℕ, ◌+◌, ◌≡◌, refl, sym, ap, subst, ◌∙◌, ◌⊎◌, inl, inr, ◌∷◌,
  arith,
}
use routeup.Strings.{Unicode}
use routeup.Server.Limiter.{Rate, allow}
use routeup.Server.Limiter.Invariant.{allow-Inv, Inv}
use routeup.Server.Holds.{hold_route}
use routeup.Server.Holds.Blocking.{Held}
use routeup.Server.Authorize.{Authorizer, AuthorizeError, Decision, authorize}
use routeup.Server.Tokens.{Token}
use routeup.Server.Tokens.Laws.{Verified}
use routeup.Server.Broker.{
  Broker, RouteLease, ClaimFailure, StoreFaults, anon_key, invalid_key, token_key, count_limited,
  Answer, hold_decided,
}
use routeup.Server.Broker.Laws.{
  Untouched, Leased, hold_decided-err, hold_decided-ok, Charged, run, decision, hold-Shape,
}

module _ (rate : Rate) where
  Charged-Untouched :
      (sha256_hex : Text → Text) (t : ℕ) (token : Text) (k k' : Broker rate)
      → Charged rate sha256_hex t token k k'
      → Untouched rate k k'
  Charged-Untouched sha256_hex t token k k' (inl (_, e)) =
      rw e (record { holds = refl; tokens = refl; ensured = refl; accepted = refl })
  Charged-Untouched sha256_hex t token k k' (inr (inl (_, e))) =
      rw e (record { holds = refl; tokens = refl; ensured = refl; accepted = refl })
  Charged-Untouched sha256_hex t token k k' (inr (inr (_, _, e))) =
      rw e (record { holds = refl; tokens = refl; ensured = refl; accepted = refl })

  Untouched-trans :
      (a b c : Broker rate) → Untouched rate a b → Untouched rate b c → Untouched rate a c
  Untouched-trans a b c p q = record {
    holds = q.holds ∙ p.holds;
    tokens = q.tokens ∙ p.tokens;
    ensured = q.ensured ∙ p.ensured;
    accepted = q.accepted ∙ p.accepted;
  }

  -- Both limiters are in order.
  abbrev pub Metered : Broker rate → Type 0
  Metered k = Inv rate k.claim_limiter × Inv rate k.anon_limiter

  Charged-Metered :
      (sha256_hex : Text → Text) (t : ℕ) (token : Text) (k k' : Broker rate)
      → Charged rate sha256_hex t token k k'
      → Metered k
      → Metered k'
  Charged-Metered sha256_hex t token k k' (inl (_, e)) v =
      rw e (v.0, allow-Inv rate anon_key t k.anon_limiter v.1)
  Charged-Metered sha256_hex t token k k' (inr (inl (_, e))) v =
      rw e (allow-Inv rate invalid_key t k.claim_limiter v.0, v.1)
  Charged-Metered sha256_hex t token k k' (inr (inr (tok, _, e))) v =
      rw e (allow-Inv rate (token_key tok) t k.claim_limiter v.0, v.1)

  -- The limiters are left alone once the claim has been charged.
  hold_decided-limiters :
      (f : StoreFaults) (now : ℕ) (r : Result AuthorizeError Decision) (k : Broker rate)
      → ((hold_decided rate f now r k).0.claim_limiter ≡ k.claim_limiter)
        × ((hold_decided rate f now r k).0.anon_limiter ≡ k.anon_limiter)
  unfolding hold_decided
  hold_decided-limiters f now (err e) k = (refl, refl)
  hold_decided-limiters f now (ok d) k =
      elim (Result-cases (hold_route f.of_holds now k.holds d.hold_req)) [
        | inl ((t, row), good) ↦ ground (arith, good)
        | inr (e, bad) ↦ ground (arith, bad)
      ]

  module _ (sha256_hex : Text → Text) (u : Unicode) (f : StoreFaults) (limit_now now : ℕ)
      (a : Authorizer) where
    abbrev result : Text → Text → Broker rate → Answer rate
    result token route k = run rate sha256_hex u f limit_now now a token route k

    -- A claim that Hold refuses changes no hold and no token, asks for no certificate and is not
    -- counted as accepted.
    pub hold-Untouched :
        (token route : Text) (k : Broker rate) (e : ClaimFailure)
        → (result token route k).1 ≡ err e
        → Untouched rate k (result token route k).0
    hold-Untouched token route k e h =
        let (k', charged, shape) = hold-Shape rate sha256_hex u f limit_now now a token route k in
        let first = Charged-Untouched sha256_hex limit_now token k k' charged in
        elim shape [
          | inl refused ↦ rw refused (
              Untouched-trans k k' (count_limited rate k') first
                (record { holds = refl; tokens = refl; ensured = refl; accepted = refl }))
          | inr decided ↦
              let r = decision rate sha256_hex u f limit_now now a token route k in
              rw decided (
                Untouched-trans k k' _ first
                  (hold_decided-err rate f now r k' e (sym (ap (λ x. x.1) decided) ∙ h)))
        ]

    -- A lease that Hold grants is for a host that Authorize decided on, for the token and the route
    -- given; the host is held for that decision with the lease's generation, every other host's hold
    -- and every token is as it was, and the base's certificate has been asked for.
    pub hold-Leased :
        (token route : Text) (k : Broker rate) (lease : RouteLease)
        → (result token route k).1 ≡ ok lease
        → (d : Decision) × (authorize sha256_hex u f.of_tokens k.tokens a token route ≡ ok d)
          × Leased rate d now k (result token route k).0 lease
    hold-Leased token route k lease h =
        let (k', charged, shape) = hold-Shape rate sha256_hex u f limit_now now a token route k in
        let first = Charged-Untouched sha256_hex limit_now token k k' charged in
        elim shape [
          | inl refused ↦ absurd (ground (arith, ap (λ x. x.1) refused, h))
          | inr decided ↦
              let r = decision rate sha256_hex u f limit_now now a token route k in
              let (d, e, w) =
                hold_decided-ok rate f now r k' lease (sym (ap (λ x. x.1) decided) ∙ h) in
              (
                d,
                e,
                rw decided (record {
                  row = w.row;
                  host = w.host;
                  generation = w.generation;
                  held =
                      subst
                        (λ t. Held now t d.hold_req (hold_decided rate f now r k').0.holds w.row)
                        first.holds w.held;
                  tokens = w.tokens ∙ first.tokens;
                  ensured = w.ensured ∙ ap (λ x. d.base ∷ x) first.ensured;
                  accepted = w.accepted ∙ ap (λ x. x + 1) first.accepted;
                }),
              )
        ]

    -- Every claim, granted or not, leaves both limiters in order, within their bounds.
    pub hold-Metered :
        (token route : Text) (k : Broker rate) → Metered k → Metered (result token route k).0
    hold-Metered token route k v =
        let (k', charged, shape) = hold-Shape rate sha256_hex u f limit_now now a token route k in
        let w = Charged-Metered sha256_hex limit_now token k k' charged v in
        elim shape [
          | inl refused ↦ rw refused w
          | inr decided ↦
              let r = decision rate sha256_hex u f limit_now now a token route k in
              let (claim, anon) = hold_decided-limiters f now r k' in rw (decided, claim, anon) w
        ]

    -- The limiter of claims with a token is charged, if at all, under the fixed key of bad tokens or
    -- under the id of the token that the secret stands for.
    pub hold-claim_limiter :
        (token route : Text) (k : Broker rate)
        → let l = (result token route k).0.claim_limiter in
          (l ≡ k.claim_limiter)
          ⊎ (l ≡ (allow rate invalid_key limit_now k.claim_limiter).0)
          ⊎ ((tok : Token) × Verified (sha256_hex token) k.tokens tok
              × (l ≡ (allow rate (token_key tok) limit_now k.claim_limiter).0))
    hold-claim_limiter token route k =
        let (k', charged, shape) = hold-Shape rate sha256_hex u f limit_now now a token route k in
        let kept : (result token route k).0.claim_limiter ≡ k'.claim_limiter = elim shape [
          | inl refused ↦ ap (λ x. x.0.claim_limiter) refused
          | inr decided ↦
              ap (λ x. x.0.claim_limiter) decided
              ∙ (hold_decided-limiters f now
                  (decision rate sha256_hex u f limit_now now a token route k) k').0
        ] in
        elim charged [
          | inl (_, e) ↦ inl (kept ∙ ap (λ x. x.claim_limiter) e)
          | inr (inl (_, e)) ↦ inr (inl (kept ∙ ap (λ x. x.claim_limiter) e))
          | inr (inr (tok, w, e)) ↦ inr (inr (tok, w, kept ∙ ap (λ x. x.claim_limiter) e))
        ]
