-- ===== src/Server/Config/Layers.antt =====
-- The layers of the server's configuration: defaults, the file, and the flags.
use routeup.Base.{
  Text, eq_ℤ_iff, text_eq_iff, ◌≡◌, refl, Option, none, some, List, [], arith, ℤ, pos,
}
use routeup.Server.Config.{
  ServerConfig, overlay, Float, zero_float, positive, negative, RateLimiterConfig, over_text,
  over_list, over_int, over_float, over_limits,
}

text_assoc : (a b c : Text) → over_text (over_text a b) c ≡ over_text a (over_text b c)
text_assoc a b c = ground (arith, text_eq_iff b [], text_eq_iff c [])

list_assoc :
    (a b c : Option (List Text)) → over_list (over_list a b) c ≡ over_list a (over_list b c)
list_assoc a b none = refl
list_assoc a b (some l) = refl

int_assoc : (a b c : ℤ) → over_int (over_int a b) c ≡ over_int a (over_int b c)
int_assoc a b c = ground (arith, eq_ℤ_iff b (pos 0), eq_ℤ_iff c (pos 0))

float_assoc : (a b c : Float) → over_float (over_float a b) c ≡ over_float a (over_float b c)
float_assoc a b zero_float = refl
float_assoc a b (positive n) = refl
float_assoc a b (negative n) = refl

limits_assoc :
    (a b c : RateLimiterConfig) → over_limits (over_limits a b) c ≡ over_limits a (over_limits b c)
limits_assoc a b c =
    rw
      (
        float_assoc a.claim_rate b.claim_rate c.claim_rate,
        int_assoc a.claim_burst b.claim_burst c.claim_burst,
        float_assoc a.anon_rate b.anon_rate c.anon_rate,
        int_assoc a.anon_burst b.anon_burst c.anon_burst,
        float_assoc a.request_rate b.request_rate c.request_rate,
        int_assoc a.request_burst b.request_burst c.request_burst,
      )
      refl

-- The order in which layers are joined is of no account, only the order in which they lie: a file over
-- the defaults with flags over both is the defaults under the file with the flags over it.
pub overlay_assoc : (a b c : ServerConfig) → overlay (overlay a b) c ≡ overlay a (overlay b c)
unfolding overlay
overlay_assoc a b c =
    rw
      (
        text_assoc a.domain b.domain c.domain,
        text_assoc a.listen b.listen c.listen,
        text_assoc a.public_namespace b.public_namespace c.public_namespace,
        text_assoc a.db_path b.db_path c.db_path,
        list_assoc a.reserved b.reserved c.reserved,
        text_assoc a.tls_mode b.tls_mode c.tls_mode,
        text_assoc a.acme_email b.acme_email c.acme_email,
        text_assoc a.acme_ca b.acme_ca c.acme_ca,
        text_assoc a.acme_storage b.acme_storage c.acme_storage,
        text_assoc a.tls_cert b.tls_cert c.tls_cert,
        text_assoc a.tls_key b.tls_key c.tls_key,
        text_assoc a.log_format b.log_format c.log_format,
        text_assoc a.log_level b.log_level c.log_level,
        text_assoc a.metrics_listen b.metrics_listen c.metrics_listen,
        limits_assoc a.rate_limit b.rate_limit c.rate_limit,
      )
      refl

text-over_blank : (b : Text) → over_text [] b ≡ b
text-over_blank b = ground (arith, text_eq_iff b [])
