-- ===== src/Tests/Claims.antt =====
-- Tokens, authorization, rate limits and the broker.
use routeup.Base.{
  Text, ltb, ok, err, codes, ℕ, ◌-◌, ◌*◌, ◌≡◌, refl, ◌≢◌, ◌⊎◌, true, false, none, some, [], ◌∷◌,
  text_eq, lookup, sort_by, insert,
}
use routeup.Tests.{plain}
use routeup.Server.Limiter.{Rate, MultiLimiter, new_multi_limiter, allow, evict_idle, make_room}
use routeup.Server.Limiter.Invariant.{Inv, new_multi_limiter-Inv, allow-Inv}
use routeup.Server.Tokens.{
  Faults as TokenFaults, Token, Tables, TokenRow, revoke_token, verify_token, load_patterns,
  token_bases,
}
use routeup.Server.Tokens.Laws.{Verified, verify_token_sound, revoke_token-verify}
use routeup.Server.Config.{default_server_config}
use routeup.Server.Authorize.{
  Authorizer, Decision, invalid_token, namespace_labels, authorize_verified_token, authorize,
  authenticate_token, resolve_public_label, place_under_token,
}
use routeup.Server.Authorize.Laws.{Granted, authorize_verified_token_sound}
use routeup.Server.Reserved.{default_reserved_labels, ReservedSet, has}
use routeup.Server.Broker.{
  Broker, RouteLease, rejected, StoreFaults, invalid_key, token_key, Answer, hold, hold_token,
}
use routeup.Server.Broker.Laws.{Leased, Untouched}
use routeup.Server.Broker.Hold.{Metered, hold-Untouched, hold-Leased, hold-claim_limiter}
use routeup.Server.Holds.{by_token, hold_route}

-- A bucket holds up to three tokens and is never filled again.
abbrev pub three : Rate
three = record { Bucket = ℕ; fresh = 3; allow_n = λ b now. (b - 1, ltb 0 b) }

allow-Inv_example : Inv three (allow three (codes "anon") 5 (new_multi_limiter three false)).0
allow-Inv_example =
    allow-Inv three (codes "anon") 5 (new_multi_limiter three false)
      (new_multi_limiter-Inv three false)

-- A hash, for these inputs.
abbrev hash : Text → Text
hash s = b'h' ∷ s

abbrev secret : Text
secret = codes "sk_routeup_x"

abbrev alice_row : TokenRow
alice_row = record {
  id = codes "a1";
  name = codes "alice";
  token_hash = hash secret;
  created_at = 1;
  revoked_at = none;
}

abbrev tables : Tables
tables = record {
  tokens = alice_row ∷ [];
  patterns = record { token_id = codes "a1"; pattern = codes "*.alice.routeup.dev" } ∷ [];
}

abbrev revoked_tables : Tables
revoked_tables = record tables { tokens = record alice_row { revoked_at = some 4 } ∷ [] }

abbrev no_faults : TokenFaults
no_faults = record {
  query_token = false;
  query_patterns = false;
  query_bases = false;
  writing = false;
}

abbrev alice : Token
alice = record {
  id = codes "a1";
  name = codes "alice";
  patterns = record { suffix = codes "alice.routeup.dev" } ∷ [];
  created_at = 1;
  revoked_at = none;
}

verifies : verify_token hash plain no_faults tables secret ≡ ok alice
unfolding verify_token routeup.Strings.has_prefix routeup.Base.text_eq
    routeup.Server.Tokens.load_patterns routeup.Base.sort_by
    routeup.Server.Allow.parse_allow_pattern routeup.Strings.to_lower routeup.Strings.trim_space
    routeup.Server.Host.validate_dns_name routeup.Strings.split
verifies = refl

secret_sound : Verified (hash secret) tables alice
secret_sound = verify_token_sound hash plain no_faults tables secret alice verifies

abbrev bob_row : TokenRow
bob_row = record alice_row { id = codes "b1"; token_hash = codes "none" }

abbrev both : Tables
both = record tables { tokens = alice_row ∷ bob_row ∷ [] }

abbrev bob_revoked : Tables
bob_revoked = record tables { tokens = alice_row ∷ record bob_row { revoked_at = some 4 } ∷ [] }

revokes_bob : revoke_token no_faults 4 both (codes "b1") ≡ ok (bob_revoked, true)
unfolding revoke_token routeup.Base.text_eq
revokes_bob = refl

alice_verifies : verify_token hash plain no_faults bob_revoked secret ≡ ok alice
unfolding verify_token routeup.Strings.has_prefix routeup.Base.text_eq
    routeup.Server.Tokens.load_patterns routeup.Base.sort_by
    routeup.Server.Allow.parse_allow_pattern routeup.Strings.to_lower routeup.Strings.trim_space
    routeup.Server.Host.validate_dns_name routeup.Strings.split
alice_verifies = refl

revoke_token-verify_example : alice.id ≢ codes "b1"
revoke_token-verify_example =
    revoke_token-verify hash plain no_faults no_faults 4 both bob_revoked (codes "b1") secret true
      alice revokes_bob alice_verifies

abbrev authorizer : Authorizer
authorizer = record {
  cfg = record default_server_config {
    domain = codes "routeup.dev";
    public_namespace = codes "try";
  };
  reserved = default_reserved_labels;
}

abbrev blog_host : Text
blog_host = codes "blog.alice.routeup.dev"

abbrev decided : Decision
decided = record {
  host = blog_host;
  mode = by_token;
  ephemeral = false;
  base = codes "alice.routeup.dev";
  hold_req = record { host = blog_host; kind = by_token; token_id = codes "a1" };
}

authorizes :
    authorize_verified_token plain no_faults tables authorizer (codes "Blog") alice ≡ ok decided
unfolding authorize_verified_token routeup.Base.text_eq routeup.Route.Name.parse
    routeup.Strings.to_lower routeup.Strings.has_suffix routeup.Route.Name.validate_labels
    routeup.Strings.split routeup.Server.Tokens.token_bases
    routeup.Server.Host.immediate_child_label routeup.Strings.trim_space routeup.Server.Reserved.has
    routeup.Server.Host.derive_token_host routeup.Route.Name.to_string routeup.Strings.join
authorizes = refl

abbrev Sound : Decision → Type 0
Sound d =
    (ns : ReservedSet) × (namespace_labels plain no_faults tables authorizer ≡ ok ns)
    × Granted plain authorizer ns alice d

authorize_verified_token_sound_example : Sound decided
authorize_verified_token_sound_example =
    authorize_verified_token_sound plain no_faults tables authorizer (codes "Blog") alice decided
      secret_sound.all_dns authorizes

abbrev faults : StoreFaults
faults = record { of_tokens = no_faults; of_holds = record { reading = false; writing = false } }

abbrev start : Broker three
start = record {
  claim_limiter = new_multi_limiter three false;
  anon_limiter = new_multi_limiter three false;
  tokens = tables;
  holds = [];
  metrics = record { limited = 0; refused = 0; accepted = 0 };
  ensured = [];
}

abbrev answer : Text → Answer three
answer token = hold three hash plain faults 5 6 authorizer token (codes "blog") start

abbrev lease : RouteLease
lease = record { host = blog_host; generation = 6 }

leases : (answer secret).1 ≡ ok lease
unfolding hold text_eq authenticate_token verify_token routeup.Strings.has_prefix load_patterns
    sort_by routeup.Server.Allow.parse_allow_pattern routeup.Strings.to_lower
    routeup.Strings.trim_space routeup.Server.Host.validate_dns_name routeup.Strings.split allow
    new_multi_limiter lookup authorize_verified_token routeup.Route.Name.parse
    routeup.Strings.has_suffix routeup.Base.insert routeup.Route.Name.to_string
    routeup.Route.Name.validate_labels namespace_labels routeup.Server.Authorize.place_under_token
    routeup.Server.Authorize.resolve_public_label routeup.Server.Broker.hold_token
    routeup.Server.Holds.hold_route routeup.Server.Host.derive_token_host
    routeup.Server.Host.immediate_child_label routeup.Server.Limiter.make_room
    routeup.Server.Limiter.evict_idle has token_bases routeup.Strings.join
leases = refl

abbrev IsLeased : RouteLease → Type 0
IsLeased l =
    (d : Decision) × (authorize hash plain no_faults tables authorizer secret (codes "blog") ≡ ok d)
    × Leased three d 6 start (answer secret).0 l

hold-Leased_example : IsLeased lease
hold-Leased_example =
    hold-Leased three hash plain faults 5 6 authorizer secret (codes "blog") start lease leases

refuses : (answer (codes "wrong")).1 ≡ err (rejected 401 invalid_token)
unfolding hold routeup.Base.text_eq routeup.Server.Authorize.authenticate_token verify_token
    routeup.Strings.has_prefix allow new_multi_limiter routeup.Base.lookup
refuses = refl

hold-Untouched_example : Untouched three start (answer (codes "wrong")).0
hold-Untouched_example =
    hold-Untouched three hash plain faults 5 6 authorizer (codes "wrong") (codes "blog") start
      (rejected 401 invalid_token) refuses

start-Metered : Metered three start
start-Metered = (new_multi_limiter-Inv three false, new_multi_limiter-Inv three false)

abbrev ChargedById : MultiLimiter three → Type 0
ChargedById l =
    (l ≡ start.claim_limiter)
    ⊎ (l ≡ (allow three invalid_key 5 start.claim_limiter).0)
    ⊎ ((tok : Token) × Verified (hash secret) tables tok
        × (l ≡ (allow three (token_key tok) 5 start.claim_limiter).0))

hold-claim_limiter_example : ChargedById (answer secret).0.claim_limiter
hold-claim_limiter_example =
    hold-claim_limiter three hash plain faults 5 6 authorizer secret (codes "blog") start
