-- ===== src/Server/Authorize.antt =====
-- internal/server/authorize.go: which public host a claim gets. An Authorizer is its configuration and its reserved set; the tables of the store and
-- the statements that fail are given to each method.
pub mod Placement
pub mod Laws
use routeup.Base.{
  Text, ◌==◌, if◌then◌else◌, length, Result, ok, err, ◌>>=◌, ◌>>◌, fail_if, wrap, text_eq, ℕ, Bool,
  true, false, not, ◌&&◌, ◌||◌, none, some, List, [], ◌∷◌, ◌++◌,
}
use routeup.Strings.{Unicode, has_suffix}
use routeup.Server.Host.{derive_token_host, derive_namespace_host, immediate_child_label}
use routeup.Server.Allow.{AllowPattern}
use routeup.Server.Reserved.{ReservedSet, has}
use routeup.Server.Config.{ServerConfig, effective_reserved}
use routeup.Server.Tokens.{
  Token, Tables, TokenError, token_invalid, Faults, token_bases, verify_token,
}
use routeup.Server.Holds.{HoldKind, HoldRequest, by_token, by_namespace}
use routeup.Route.Name.{NameError, parse, to_string}

-- type Authorizer, less its store
pub record Authorizer : Type 0 where
  pub cfg : ServerConfig
  pub reserved : ReservedSet

-- func NewAuthorizer
unfoldable pub new_authorizer : Unicode → ServerConfig → Authorizer
new_authorizer u c = record { cfg = c; reserved = effective_reserved u c }

pub data Reason : Type 0 where
  invalid_token no_route out_of_scope no_namespace : Reason
  invalid_route : NameError → Reason
  several_labels : List Text → Reason

-- An *AuthzError with its HTTP status, or a failure of the store.
pub data AuthorizeError : Type 0 where
  authz : ℕ → Reason → AuthorizeError
  internal : TokenError → AuthorizeError

-- type Decision
pub record Decision : Type 0 where
  pub host : Text
  pub mode : HoldKind
  pub ephemeral : Bool
  pub base : Text
  pub hold_req : HoldRequest

-- func resolvePublicLabel, of an attempt's route
unfoldable pub resolve_public_label : Unicode → Text → Result AuthorizeError Text
resolve_public_label u route = do
  fail_if (text_eq route []) (authz 400 no_route)
  parsed ← wrap (λ e. authz 400 (invalid_route e)) (parse u route)
  fail_if (not (length parsed.labels == 1)) (authz 400 (several_labels parsed.labels))
  ok (to_string parsed)

-- The loop of namespaceLabels.
unfoldable pub namespace_labels_of : Unicode → Text → List Text → ReservedSet
namespace_labels_of u domain [] = []
namespace_labels_of u domain (base ∷ bases) =
    let rest = namespace_labels_of u domain bases in
    if text_eq base domain
    then rest
    else elim (immediate_child_label u base domain) [ none ↦ rest | some label ↦ label ∷ rest ]

-- func (a *Authorizer) namespaceLabels
unfoldable pub namespace_labels :
    Unicode → Faults → Tables → Authorizer → Result AuthorizeError ReservedSet
unfolding namespace_labels_of
namespace_labels u f db a = do
  bases ← wrap internal (token_bases u f db)
  ok (namespace_labels_of u a.cfg.domain bases)

-- func (a *Authorizer) placementAllowed
unfoldable pub placement_allowed : Unicode → Authorizer → Text → Text → ReservedSet → Bool
placement_allowed u a label base ns_labels =
    if text_eq base a.cfg.domain
    then not (has u a.reserved label) && not (has u ns_labels label)
    else elim (immediate_child_label u base a.cfg.domain) [
      | none ↦ false
      | some ns_label ↦ not (has u a.reserved ns_label)
    ]

-- Whether a pattern's base is within the server's domain.
abbrev pub in_domain : Authorizer → Text → Bool
in_domain a base = text_eq base a.cfg.domain || has_suffix (b'.' ∷ a.cfg.domain) base

-- func (a *Authorizer) placeUnderToken, over the patterns of the token
unfoldable pub place_under_token :
    Unicode
    → Authorizer
    → Text
    → List AllowPattern
    → ReservedSet
    → Result AuthorizeError (Text × Text)
unfolding placement_allowed
place_under_token u a label [] ns_labels = err (authz 403 out_of_scope)
place_under_token u a label (p ∷ ps) ns_labels =
    let rest = place_under_token u a label ps ns_labels in
    if not (in_domain a p.suffix)
    then rest
    else if placement_allowed u a label p.suffix ns_labels
    then ok (derive_token_host u label p.suffix, p.suffix)
    else rest

-- func (a *Authorizer) authorizeVerifiedToken
unfoldable pub authorize_verified_token :
    Unicode → Faults → Tables → Authorizer → Text → Token → Result AuthorizeError Decision
unfolding resolve_public_label namespace_labels place_under_token
authorize_verified_token u f db a route tok = do
  label ← resolve_public_label u route
  ns_labels ← namespace_labels u f db a
  (host, base) ← place_under_token u a label tok.patterns ns_labels
  let req : HoldRequest = record { host = host; kind = by_token; token_id = tok.id }
  ok (record { host = host; mode = by_token; ephemeral = false; base = base; hold_req = req })

-- func (a *Authorizer) authorizeNamespace
unfoldable pub authorize_namespace : Unicode → Authorizer → Text → Result AuthorizeError Decision
unfolding resolve_public_label
authorize_namespace u a route = do
  fail_if (text_eq a.cfg.public_namespace []) (authz 401 no_namespace)
  label ← resolve_public_label u route
  let host = derive_namespace_host u label a.cfg.public_namespace a.cfg.domain
  let req : HoldRequest = record { host = host; kind = by_namespace; token_id = [] }
  ok (record {
    host = host;
    mode = by_namespace;
    ephemeral = true;
    base = a.cfg.public_namespace ++ (b'.' ∷ a.cfg.domain);
    hold_req = req;
  })

-- authenticateToken's reading of VerifyToken's error.
abbrev pub authenticate_error : TokenError → AuthorizeError
authenticate_error token_invalid = authz 401 invalid_token
authenticate_error e = internal e

module _ (sha256_hex : Text → Text) where
  -- func (a *Authorizer) authenticateToken
  unfoldable pub authenticate_token : Unicode → Faults → Tables → Text → Result AuthorizeError Token
  authenticate_token u f db secret = wrap authenticate_error (verify_token sha256_hex u f db secret)

  -- func (a *Authorizer) authorizeToken
  unfoldable pub authorize_token :
      Unicode → Faults → Tables → Authorizer → Text → Text → Result AuthorizeError Decision
  unfolding authenticate_token authorize_verified_token
  authorize_token u f db a secret route = do
    tok ← authenticate_token u f db secret
    authorize_verified_token u f db a route tok

  -- func (a *Authorizer) Authorize
  unfoldable pub authorize :
      Unicode → Faults → Tables → Authorizer → Text → Text → Result AuthorizeError Decision
  unfolding authorize_token authorize_namespace
  authorize u f db a secret route =
      if not (text_eq secret [])
      then authorize_token u f db a secret route
      else authorize_namespace u a route
