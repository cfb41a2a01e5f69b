-- ===== src/Server/Broker.antt =====
-- internal/server/broker.go: what the server does for a tunnel's claim. The broker's state holds its
-- two limiters, the tables of the store, the counters of its metrics, and the calls of
-- ensureNamespace, which server.go sets, the latest first. The statements that fail and the readings of the clock, one
-- for the limiter and one for the store, are arguments.
pub mod Laws
pub mod Hold
use routeup.Base.{
  Text, if◌then◌else◌, Result, ok, err, codes, text_eq, ℕ, ◌+◌, not, List, [], ◌∷◌, ◌++◌,
}
use routeup.Strings.{Unicode}
use routeup.Server.Limiter.{Rate, MultiLimiter, allow}
use routeup.Server.Holds.{
  Faults as HoldFaults, Table, hold_route, HoldError, route_conflict, release_locked,
}
use routeup.Server.Tokens.{Faults as TokenFaults, Tables, Token, TokenError}
use routeup.Server.Authorize.{
  Authorizer, Decision, Reason, AuthorizeError, authz, internal, authorize_verified_token,
  authorize_namespace, authenticate_token,
}

-- type tunnel.RouteLease
pub record RouteLease : Type 0 where
  pub host : Text
  pub generation : ℕ

-- A *codedError with its status and reason, or another error.
pub data ClaimFailure : Type 0 where
  rate_limited claimed_already : ℕ → ClaimFailure
  rejected : ℕ → Reason → ClaimFailure
  token_failure : TokenError → ClaimFailure
  hold_failure : HoldError → ClaimFailure

-- The counters that Hold advances.
pub record Metrics : Type 0 where
  pub limited : ℕ
  pub refused : ℕ
  pub accepted : ℕ

-- Which statements of the store fail.
pub record StoreFaults : Type 0 where
  pub of_tokens : TokenFaults
  pub of_holds : HoldFaults

-- Hold's two readings of an error: authorization's, and HoldRoute's.
abbrev pub authorize_failure : AuthorizeError → ClaimFailure
authorize_failure (authz status reason) = rejected status reason
authorize_failure (internal e) = token_failure e

abbrev pub route_failure : HoldError → ClaimFailure
route_failure route_conflict = claimed_already 409
route_failure e = hold_failure e

abbrev pub anon_key : Text
anon_key = codes "anon"

abbrev pub invalid_key : Text
invalid_key = codes "invalid"

abbrev pub token_key : Token → Text
token_key tok = codes "token:" ++ tok.id

module _ (rate : Rate) where
  -- type routeBroker, less its authorizer
  pub record Broker : Type 0 where
    pub claim_limiter : MultiLimiter rate
    pub anon_limiter : MultiLimiter rate
    pub tokens : Tables
    pub holds : Table
    pub metrics : Metrics
    pub ensured : List Text

  abbrev pub count_limited : Broker → Broker
  count_limited k = record k { metrics = record k.metrics { limited = k.metrics.limited + 1 } }

  abbrev pub count_refused : Broker → Broker
  count_refused k = record k { metrics = record k.metrics { refused = k.metrics.refused + 1 } }

  abbrev pub count_accepted : Broker → Broker
  count_accepted k = record k { metrics = record k.metrics { accepted = k.metrics.accepted + 1 } }

  abbrev pub Answer : Type 0
  Answer = Broker × Result ClaimFailure RouteLease

  -- Hold from the decision on.
  unfoldable pub hold_decided : StoreFaults → ℕ → Result AuthorizeError Decision → Broker → Answer
  hold_decided f now (err e) k = (count_refused k, err (authorize_failure e))
  hold_decided f now (ok d) k = elim (hold_route f.of_holds now k.holds d.hold_req) [
    | err e ↦ (count_refused k, err (route_failure e))
    | ok (table, hold) ↦ (
      count_accepted (record k { holds = table; ensured = d.base ∷ k.ensured }),
      ok (record { host = d.host; generation = hold.held_at }),
    )
  ]

  -- Hold for a client without a token.
  unfoldable pub hold_anon : Unicode → StoreFaults → ℕ → ℕ → Authorizer → Text → Broker → Answer
  unfolding hold_decided
  hold_anon u f limit_now now a route k =
      let (limiter, allowed) = allow rate anon_key limit_now k.anon_limiter in
      let k' = record k { anon_limiter = limiter } in
      if not allowed
      then (count_limited k', err (rate_limited 429))
      else hold_decided f now (authorize_namespace u a route) k'

  -- Hold for a client with a token, given what authenticateToken returned.
  unfoldable pub hold_token :
      Unicode
      → StoreFaults
      → ℕ
      → ℕ
      → Authorizer
      → Text
      → Result AuthorizeError Token
      → Broker
      → Answer
  unfolding hold_decided
  hold_token u f limit_now now a route (err e) k =
      let (limiter, allowed) = allow rate invalid_key limit_now k.claim_limiter in
      let k' = record k { claim_limiter = limiter } in
      if not allowed
      then (count_limited k', err (rate_limited 429))
      else hold_decided f now (err e) k'
  hold_token u f limit_now now a route (ok tok) k =
      let (limiter, allowed) = allow rate (token_key tok) limit_now k.claim_limiter in
      let k' = record k { claim_limiter = limiter } in
      if not allowed
      then (count_limited k', err (rate_limited 429))
      else hold_decided f now (authorize_verified_token u f.of_tokens k.tokens a route tok) k'

  -- func (k *routeBroker) Hold
  unfoldable pub hold :
      (Text → Text) → Unicode → StoreFaults → ℕ → ℕ → Authorizer → Text → Text → Broker → Answer
  unfolding hold_anon hold_token
  hold sha256_hex u f limit_now now a token route k =
      if text_eq token []
      then hold_anon u f limit_now now a route k
      else hold_token u f limit_now now a route
          (authenticate_token sha256_hex u f.of_tokens k.tokens token) k

  -- func (k *routeBroker) Release, which ignores the error
  unfoldable pub release : StoreFaults → ℕ → RouteLease → Broker → Broker
  release f now lease k = elim (release_locked f.of_holds now k.holds lease.host lease.generation) [
    | err e ↦ k
    | ok table ↦ record k { holds = table }
  ]
