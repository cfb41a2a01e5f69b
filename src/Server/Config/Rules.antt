-- ===== src/Server/Config/Rules.antt =====
-- What a server configuration that Validate accepts obeys.
use routeup.Base.{
  Text, All, ok, codes, text_eq_iff, ◌≡◌, ◌≢◌, ◌⊎◌, true, Option, List, [], ◌∷◌, arith, ℤ,
}
use routeup.Strings.{Unicode, to_lower, trim_space}
use routeup.Server.Host.{validate_label, validate_dns_name}
use routeup.Server.Config.{
  ServerConfig, validate, Float, elements, check_reserved, metrics_port_fits, check_limit,
  RateLimiterConfig, check_tls, check_limits, check_formats, check_names,
}

-- A limit that is enabled has a burst above zero, and no rate is negative.
abbrev pub LimitOk : Float → ℤ → Type 0
LimitOk rate burst = check_limit rate burst ≡ ok tt

check_reserved-All :
    (u : Unicode) (rs : List Text)
    → check_reserved u rs ≡ ok tt
    → All (λ r. validate_label (to_lower u (trim_space u r)) ≡ ok tt) rs
unfolding check_reserved
check_reserved-All u [] h = tt
check_reserved-All u (r ∷ rs) h = (ground (arith, h), check_reserved-All u rs (ground (arith, h)))

check_limits-LimitOk :
    (l : RateLimiterConfig)
    → check_limits l ≡ ok tt
    → LimitOk l.claim_rate l.claim_burst
      × LimitOk l.anon_rate l.anon_burst
      × LimitOk l.request_rate l.request_burst
unfolding check_limits
check_limits-LimitOk l h = ground (arith, h)

-- Where the mode is cert, both files are named.
abbrev pub TlsOk : ServerConfig → Type 0
TlsOk c =
    (c.tls_mode ≡ [])
    ⊎ (c.tls_mode ≡ codes "acme")
    ⊎ ((c.tls_mode ≡ codes "cert") × (c.tls_cert ≢ []) × (c.tls_key ≢ []))

check_tls-TlsOk : (c : ServerConfig) → check_tls c ≡ ok tt → TlsOk c
unfolding check_tls
check_tls-TlsOk c h = ground (
  arith,
  h,
  text_eq_iff c.tls_mode [],
  text_eq_iff c.tls_mode (codes "acme"),
  text_eq_iff c.tls_mode (codes "cert"),
  text_eq_iff c.tls_cert [],
  text_eq_iff c.tls_key [],
)

check_formats-metrics :
    (split_port : Text → Option Text) (c : ServerConfig)
    → check_formats split_port c ≡ ok tt
    → (c.metrics_listen ≡ []) ⊎ (metrics_port_fits (split_port c.metrics_listen) ≡ true)
unfolding check_formats
check_formats-metrics split_port c h = ground (arith, h, text_eq_iff c.metrics_listen [])

-- The names of a configuration, as they are lowered.
pub record NamesOk (u : Unicode) (c : ServerConfig) : Type 0 where
  pub domain : validate_dns_name (to_lower u c.domain) ≡ ok tt
  pub domain_set : c.domain ≢ []
  pub namespace :
      (c.public_namespace ≡ []) ⊎ (validate_label (to_lower u c.public_namespace) ≡ ok tt)
  pub reserved :
      All (λ r. validate_label (to_lower u (trim_space u r)) ≡ ok tt) (elements c.reserved)

check_names-NamesOk : (u : Unicode) (c : ServerConfig) → check_names u c ≡ ok tt → NamesOk u c
unfolding check_names
check_names-NamesOk u c h = record {
  domain = ground (arith, h);
  domain_set = ground (arith, h, text_eq_iff c.domain []);
  namespace = ground (arith, h, text_eq_iff c.public_namespace []);
  reserved = check_reserved-All u (elements c.reserved) (ground (arith, h));
}

pub record Accepted (u : Unicode) (split_port : Text → Option Text) (c : ServerConfig)
    : Type 0 where
  pub names : NamesOk u c
  pub addresses : (c.listen ≢ []) × (c.db_path ≢ [])
  pub certificate : TlsOk c
  pub metrics : (c.metrics_listen ≡ []) ⊎ (metrics_port_fits (split_port c.metrics_listen) ≡ true)
  pub bursts :
      LimitOk c.rate_limit.claim_rate c.rate_limit.claim_burst
      × LimitOk c.rate_limit.anon_rate c.rate_limit.anon_burst
      × LimitOk c.rate_limit.request_rate c.rate_limit.request_burst

-- A configuration that Validate accepts has a domain, which is lowered a DNS name; a namespace that is
-- blank or, lowered, a label; reserved labels that are labels, trimmed and lowered; an address and a
-- database; a known mode of TLS, with both files where it is cert; no address for metrics or one with a
-- port; and for each limit no negative rate, and a burst above zero where the rate is.
pub validate-Accepted :
    (u : Unicode) (split_port : Text → Option Text) (c : ServerConfig)
    → validate u split_port c ≡ ok tt
    → Accepted u split_port c
unfolding validate
validate-Accepted u split_port c h = record {
  names = check_names-NamesOk u c (ground (arith, h));
  addresses = ground (arith, h, text_eq_iff c.listen [], text_eq_iff c.db_path []);
  certificate = check_tls-TlsOk c (ground (arith, h));
  metrics = check_formats-metrics split_port c (ground (arith, h));
  bursts = check_limits-LimitOk c.rate_limit (ground (arith, h));
}
