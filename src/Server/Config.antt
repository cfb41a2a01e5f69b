-- ===== src/Server/Config.antt =====
-- internal/server/config.go: the configuration of the server. A float64 that JSON can give is known by
-- its sign and the bits of its magnitude. A slice that is nil is told from an empty one, as Overlay
-- does. Reading the file, and net.SplitHostPort, are parameters.
pub mod Layers
pub mod Rules
use routeup.Base.{
  Text, ◌>>◌, if◌then◌else◌, any, ℤ, pos, ltb_ℤ, eq_ℤ, Result, ok, err, fail_if, wrap, codes,
  text_eq, ℕ, Bool, false, not, ◌&&◌, ◌||◌, Option, none, some, List, [], ◌∷◌, ◌++◌,
}
use routeup.Strings.{Unicode, to_lower, trim_space}
use routeup.Route.Name.{LabelError}
use routeup.Server.Host.{validate_label, validate_dns_name, DnsError}
use routeup.Server.Reserved.{ReservedSet, new_reserved_set}
use routeup.Config.Resolve.{atoi}

pub data Float : Type 0 where
  zero_float : Float
  positive negative : ℕ → Float

-- type RateLimiterConfig
pub record RateLimiterConfig : Type 0 where
  pub claim_rate : Float
  pub claim_burst : ℤ
  pub anon_rate : Float
  pub anon_burst : ℤ
  pub request_rate : Float
  pub request_burst : ℤ

-- type ServerConfig
pub record ServerConfig : Type 0 where
  pub domain : Text
  pub listen : Text
  pub public_namespace : Text
  pub db_path : Text
  pub reserved : Option (List Text)
  pub tls_mode : Text
  pub acme_email : Text
  pub acme_ca : Text
  pub acme_storage : Text
  pub tls_cert : Text
  pub tls_key : Text
  pub log_format : Text
  pub log_level : Text
  pub metrics_listen : Text
  pub rate_limit : RateLimiterConfig

-- RateLimiterConfig{}
abbrev pub no_limits : RateLimiterConfig
no_limits = record {
  claim_rate = zero_float;
  claim_burst = pos 0;
  anon_rate = zero_float;
  anon_burst = pos 0;
  request_rate = zero_float;
  request_burst = pos 0;
}

-- ServerConfig{}
abbrev pub zero_server_config : ServerConfig
zero_server_config = record {
  domain = [];
  listen = [];
  public_namespace = [];
  db_path = [];
  reserved = none;
  tls_mode = [];
  acme_email = [];
  acme_ca = [];
  acme_storage = [];
  tls_cert = [];
  tls_key = [];
  log_format = [];
  log_level = [];
  metrics_listen = [];
  rate_limit = no_limits;
}

-- func DefaultServerConfig
abbrev pub default_server_config : ServerConfig
default_server_config = record zero_server_config {
  listen = codes ":443";
  db_path = codes "routeup-server.db";
  tls_mode = codes "acme";
  acme_ca = codes "production";
  log_format = codes "text";
  log_level = codes "info";
}

-- One field of Overlay: the upper value, where it is set.
abbrev pub over_text : Text → Text → Text
over_text base over = if not (text_eq over []) then over else base

abbrev pub over_list : Option (List Text) → Option (List Text) → Option (List Text)
over_list base none = base
over_list base (some l) = some l

abbrev pub over_int : ℤ → ℤ → ℤ
over_int base over = if not (eq_ℤ over (pos 0)) then over else base

abbrev pub over_float : Float → Float → Float
over_float base zero_float = base
over_float base (positive n) = positive n
over_float base (negative n) = negative n

abbrev pub over_limits : RateLimiterConfig → RateLimiterConfig → RateLimiterConfig
over_limits a b = record {
  claim_rate = over_float a.claim_rate b.claim_rate;
  claim_burst = over_int a.claim_burst b.claim_burst;
  anon_rate = over_float a.anon_rate b.anon_rate;
  anon_burst = over_int a.anon_burst b.anon_burst;
  request_rate = over_float a.request_rate b.request_rate;
  request_burst = over_int a.request_burst b.request_burst;
}

-- func Overlay
unfoldable pub overlay : ServerConfig → ServerConfig → ServerConfig
overlay a b = record {
  domain = over_text a.domain b.domain;
  listen = over_text a.listen b.listen;
  public_namespace = over_text a.public_namespace b.public_namespace;
  db_path = over_text a.db_path b.db_path;
  reserved = over_list a.reserved b.reserved;
  tls_mode = over_text a.tls_mode b.tls_mode;
  acme_email = over_text a.acme_email b.acme_email;
  acme_ca = over_text a.acme_ca b.acme_ca;
  acme_storage = over_text a.acme_storage b.acme_storage;
  tls_cert = over_text a.tls_cert b.tls_cert;
  tls_key = over_text a.tls_key b.tls_key;
  log_format = over_text a.log_format b.log_format;
  log_level = over_text a.log_level b.log_level;
  metrics_listen = over_text a.metrics_listen b.metrics_listen;
  rate_limit = over_limits a.rate_limit b.rate_limit;
}

-- The elements of a slice that may be nil.
abbrev pub elements : Option (List Text) → List Text
elements none = []
elements (some l) = l

-- func (c ServerConfig) EffectiveReserved
unfoldable pub effective_reserved : Unicode → ServerConfig → ReservedSet
effective_reserved u c =
    new_reserved_set u (
      elements c.reserved
      ++ (if text_eq c.public_namespace [] then [] else c.public_namespace ∷ []))

pub data ServerConfigError : Type 0 where
  domain_required listen_required db_required tls_files_required bad_tls_mode bad_acme_ca :
      ServerConfigError
  bad_log_format bad_log_level bad_metrics_listen negative_rate burst_required : ServerConfigError
  bad_domain : DnsError → ServerConfigError
  bad_namespace bad_reserved : LabelError → ServerConfigError

abbrev pub one_of : Text → List Text → Bool
one_of t ts = any (text_eq t) ts

-- The loop over the reserved labels.
unfoldable pub check_reserved : Unicode → List Text → Result ServerConfigError (Unit {0})
check_reserved u [] = ok tt
check_reserved u (r ∷ rs) =
    wrap bad_reserved (validate_label (to_lower u (trim_space u r))) >> check_reserved u rs

abbrev pub check_namespace : Unicode → Text → Result ServerConfigError (Unit {0})
check_namespace u ns =
    if text_eq ns [] then ok tt else wrap bad_namespace (validate_label (to_lower u ns))

-- The test of tls_mode.
unfoldable pub check_tls : ServerConfig → Result ServerConfigError (Unit {0})
check_tls c =
    if one_of c.tls_mode ([] ∷ codes "acme" ∷ [])
    then ok tt
    else if text_eq c.tls_mode (codes "cert")
    then fail_if (text_eq c.tls_cert [] || text_eq c.tls_key []) tls_files_required
    else err bad_tls_mode

abbrev pub port_in_range : Option ℤ → Bool
port_in_range none = false
port_in_range (some n) = not (ltb_ℤ n (pos 1) || ltb_ℤ (pos 65535) n)

abbrev pub metrics_port_fits : Option Text → Bool
metrics_port_fits none = false
metrics_port_fits (some port) = port_in_range (atoi port)

-- The test of one limit.
abbrev pub check_limit : Float → ℤ → Result ServerConfigError (Unit {0})
check_limit (negative n) burst = err negative_rate
check_limit zero_float burst = ok tt
check_limit (positive n) burst = fail_if (not (ltb_ℤ (pos 0) burst)) burst_required

-- The loop over the limits.
unfoldable pub check_limits : RateLimiterConfig → Result ServerConfigError (Unit {0})
check_limits l =
    check_limit l.claim_rate l.claim_burst
    >> (check_limit l.anon_rate l.anon_burst >> check_limit l.request_rate l.request_burst)

-- The tests of acme_ca, log_format, log_level and metrics_listen; `split_port` is the port that
-- net.SplitHostPort finds.
unfoldable pub check_formats :
    (Text → Option Text) → ServerConfig → Result ServerConfigError (Unit {0})
check_formats split_port c = do
  fail_if (not (one_of c.acme_ca ([] ∷ codes "production" ∷ codes "staging" ∷ []))) bad_acme_ca
  fail_if (not (one_of c.log_format ([] ∷ codes "text" ∷ codes "json" ∷ []))) bad_log_format
  fail_if
      (not (
        one_of c.log_level ([] ∷ codes "debug" ∷ codes "info" ∷ codes "warn" ∷ codes "error" ∷ [])))
      bad_log_level
  fail_if
      (not (text_eq c.metrics_listen []) && not (metrics_port_fits (split_port c.metrics_listen)))
      bad_metrics_listen

-- The tests of the names: domain, public_namespace and reserved.
unfoldable pub check_names : Unicode → ServerConfig → Result ServerConfigError (Unit {0})
unfolding check_reserved
check_names u c = do
  fail_if (text_eq c.domain []) domain_required
  wrap bad_domain (validate_dns_name (to_lower u c.domain))
  check_namespace u c.public_namespace
  check_reserved u (elements c.reserved)

-- func (c ServerConfig) Validate
unfoldable pub validate :
    Unicode → (Text → Option Text) → ServerConfig → Result ServerConfigError (Unit {0})
unfolding check_names check_tls check_formats check_limits
validate u split_port c = do
  check_names u c
  fail_if (text_eq c.listen []) listen_required
  fail_if (text_eq c.db_path []) db_required
  check_tls c
  check_formats split_port c
  check_limits c.rate_limit
