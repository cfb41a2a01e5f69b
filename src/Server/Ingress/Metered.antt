-- ===== src/Server/Ingress/Metered.antt =====
-- The metrics of the public requests.
use routeup.Base.{
  length, ℕ, zero, suc, ◌+◌, ◌≤◌, ◌<◌, ◌≡◌, refl, ap, List, [], ◌∷◌, arith, Bool-cases,
  Option-cases, Text, lookup, sym, subst, ◌∙◌, inl, inr, Option,
}
use routeup.Strings.{Unicode, to_lower}
use routeup.Server.Limiter.{Rate, allow}
use routeup.Server.Ingress.{
  OutcomeCounts, request_duration_buckets, status_class_index, add_at, observe, RequestOutcome,
  forwarded, no_tunnel, RequestMetrics, counted, request_started, request_completed, status,
  Written, Ingress, strip_port, serve_ingress, request_rate_limited, new_observed, written,
  http_error,
}

abbrev pub total : List ℕ → ℕ
total [] = 0
total (n ∷ ns) = n + total ns

-- Counts of a cumulative histogram: they ascend, and the last is at most the count of all.
abbrev pub Cumulative : List ℕ → ℕ → Type 0
Cumulative [] top = Unit
Cumulative (n ∷ []) top = n ≤ top
Cumulative (n ∷ m ∷ ns) top = (n ≤ m) × Cumulative (m ∷ ns) top

-- The counters of one outcome agree: each request is in one class, and the histogram is cumulative.
pub record Agree (c : OutcomeCounts) : Type 0 where
  pub classes : length c.by_class ≡ 6
  pub classed : total c.by_class ≡ c.count
  pub buckets : length c.duration ≡ length request_duration_buckets
  pub cumulative : Cumulative c.duration c.count

total-add_at : (i : ℕ) (ns : List ℕ) → i < length ns → total (add_at i ns) ≡ total ns + 1
unfolding add_at
total-add_at i [] h = absurd (omega (arith, h))
total-add_at zero (n ∷ ns) h = omega arith
total-add_at (suc i) (n ∷ ns) h = omega (arith, total-add_at i ns (omega (arith, h)))

length-add_at : (i : ℕ) (ns : List ℕ) → length (add_at i ns) ≡ length ns
unfolding add_at
length-add_at i [] = refl
length-add_at zero (n ∷ ns) = refl
length-add_at (suc i) (n ∷ ns) = ap suc (length-add_at i ns)

status_class_index-bounded : (s : ℕ) → status_class_index s < 6
unfolding status_class_index
status_class_index-bounded s = ground arith

length-observe : (d : ℕ) (bs ns : List ℕ) → length (observe d bs ns) ≡ length ns
unfolding observe
length-observe d [] ns = refl
length-observe d (b ∷ bs) [] = refl
length-observe d (b ∷ bs) (n ∷ ns) = ap suc (length-observe d bs ns)

abbrev Rising : List ℕ → Type 0
Rising [] = Unit
Rising (b ∷ []) = Unit
Rising (b ∷ c ∷ bs) = (b ≤ c) × Rising (c ∷ bs)

-- One observation keeps the histogram cumulative.
observe-Cumulative :
    (d top : ℕ) (bs ns : List ℕ)
    → Rising bs
    → length ns ≡ length bs
    → Cumulative ns top
    → Cumulative (observe d bs ns) (top + 1)
unfolding observe
observe-Cumulative d top [] [] a e c = tt
observe-Cumulative d top [] (n ∷ ns) a e c = absurd (omega (arith, e))
observe-Cumulative d top (b ∷ bs) [] a e c = tt
observe-Cumulative d top (b ∷ []) (n ∷ []) a e c = ground (arith, c)
observe-Cumulative d top (b ∷ []) (n ∷ m ∷ ns) a e c = absurd (omega (arith, e))
observe-Cumulative d top (b ∷ c' ∷ bs) (n ∷ []) a e c = absurd (omega (arith, e))
observe-Cumulative d top (b ∷ c' ∷ bs) (n ∷ m ∷ ns) (a, as') e (c, cs) =
    (ground (arith, a, c), observe-Cumulative d top (c' ∷ bs) (m ∷ ns) as' (omega (arith, e)) cs)

buckets_rise : Rising request_duration_buckets
buckets_rise = ground arith

counted-Agree : (status d : ℕ) (c : OutcomeCounts) → Agree c → Agree (counted status d c)
counted-Agree status d c v = record {
  classes = length-add_at (status_class_index status) c.by_class ∙ v.classes;
  classed =
      total-add_at (status_class_index status) c.by_class (
        subst (λ k. status_class_index status < k) (sym v.classes)
          (status_class_index-bounded status))
      ∙ ap (λ k. k + 1) v.classed;
  buckets = length-observe d request_duration_buckets c.duration ∙ v.buckets;
  cumulative =
      observe-Cumulative d c.count request_duration_buckets c.duration buckets_rise v.buckets
        v.cumulative;
}

-- The metrics after a request that is over.
pub record Recounted (before after : RequestMetrics) : Type 0 where
  pub settled : after.in_flight ≡ before.in_flight
  pub forwarded_agrees : Agree after.of_forwarded
  pub no_tunnel_agrees : Agree after.of_no_tunnel
  pub once :
      after.of_forwarded.count + after.of_no_tunnel.count
      ≡ before.of_forwarded.count + before.of_no_tunnel.count + 1

request_completed-Recounted :
    (status d : ℕ) (outcome : RequestOutcome) (m : RequestMetrics)
    → Agree m.of_forwarded
    → Agree m.of_no_tunnel
    → Recounted m (request_completed status d outcome (request_started m))
unfolding request_completed
request_completed-Recounted status d forwarded m v w = record {
  settled = omega arith;
  forwarded_agrees = counted-Agree status d m.of_forwarded v;
  no_tunnel_agrees = w;
  once = omega arith;
}
request_completed-Recounted status d no_tunnel m v w = record {
  settled = omega arith;
  forwarded_agrees = v;
  no_tunnel_agrees = counted-Agree status d m.of_no_tunnel w;
  once = omega arith;
}

-- The status that a writer ends with.
abbrev final : List Written → ℕ
final ws = status (written ws new_observed)

-- The count of requests that were limited is of no account to the others.
limited :
    (status d : ℕ) (m : RequestMetrics)
    → Recounted m (request_completed status d forwarded (request_started m))
    → Recounted m (request_completed status d forwarded (request_rate_limited (request_started m)))
unfolding request_completed
limited status d m v = record {
  settled = v.settled;
  forwarded_agrees = v.forwarded_agrees;
  no_tunnel_agrees = v.no_tunnel_agrees;
  once = v.once;
}

module _ (rate : Rate) (u : Unicode) (split_host_port : Text → Option Text)
    (proxy : ℕ → List Written) where
  -- A request, whatever becomes of it, leaves as many requests in flight as before it and is counted
  -- once, under one outcome. Where the counters of both outcomes agree before it, they do after it:
  -- the classes of statuses add up to the count, and the histogram of durations is cumulative.
  pub serve_ingress-Recounted :
      (now d : ℕ) (raw : Text) (s : Ingress rate)
      → Agree s.metrics.of_forwarded
      → Agree s.metrics.of_no_tunnel
      → Recounted s.metrics (serve_ingress rate u split_host_port proxy now d raw s).server.metrics
  unfolding serve_ingress
  serve_ingress-Recounted now d raw s v w =
      let host = to_lower u (strip_port rate u split_host_port proxy raw) in
      elim (Option-cases (lookup host s.routes)) [
        | inl q ↦
            rw (serve_ingress, q)
              (request_completed-Recounted (final (http_error 503)) d no_tunnel s.metrics v w)
        | inr (session, q) ↦ elim (Bool-cases (allow rate host now s.request_limiter).1) [
          | inl b ↦
              rw (serve_ingress, q, b)
                (request_completed-Recounted (final (proxy session)) d forwarded s.metrics v w)
          | inr b ↦
              rw (serve_ingress, q, b)
                (limited (final (http_error 429)) d s.metrics
                  (request_completed-Recounted (final (http_error 429)) d forwarded s.metrics v w))
        ]
      ]
