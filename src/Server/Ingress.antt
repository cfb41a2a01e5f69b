-- ===== src/Server/Ingress.antt =====
-- internal/server/api.go, and what it uses of observability.go and metrics.go: the public requests.
-- The proxy of a session is a parameter that says which statuses it writes; net.SplitHostPort is one
-- too. The log is left out. The histogram's upper bounds are in microseconds; in-flight requests and
-- the counters are natural numbers, which do not reach the bounds of 64 bits.
pub mod Metered
pub mod Requests
use routeup.Base.{
  Text, ltb, leb, ◌==◌, if◌then◌else◌, text_eq, lookup, ℕ, zero, suc, ◌+◌, ◌-◌, ◌/◌, Bool, true,
  false, not, ◌&&◌, ◌||◌, Option, none, some, List, [], ◌∷◌, ◌++◌,
}
use routeup.Strings.{Unicode, to_lower}
use routeup.Server.Limiter.{Rate, MultiLimiter, allow}
use routeup.Server.Tunnels.{Routes}

-- type requestOutcome
pub data RequestOutcome : Type 0 where
  forwarded no_tunnel : RequestOutcome

-- The counters of one outcome.
pub record OutcomeCounts : Type 0 where
  pub by_class : List ℕ
  pub duration : List ℕ
  pub duration_nsec : ℕ
  pub count : ℕ

-- type serverMetrics, as far as requests change it
pub record RequestMetrics : Type 0 where
  pub in_flight : ℕ
  pub of_forwarded : OutcomeCounts
  pub of_no_tunnel : OutcomeCounts
  pub rate_limited : ℕ

-- requestDurationBuckets, in nanoseconds
abbrev pub request_duration_buckets : List ℕ
request_duration_buckets =
    5000000 ∷ 10000000 ∷ 25000000 ∷ 50000000 ∷ 100000000 ∷ 250000000 ∷ 500000000 ∷ 1000000000
    ∷ 2500000000 ∷ 5000000000 ∷ 10000000000 ∷ []

-- func statusClassIndex
unfoldable pub status_class_index : ℕ → ℕ
status_class_index status =
    let class = status / 100 in if ltb class 1 || ltb 5 class then 5 else class - 1

-- One more at an index.
unfoldable pub add_at : ℕ → List ℕ → List ℕ
add_at i [] = []
add_at zero (n ∷ ns) = (n + 1) ∷ ns
add_at (suc i) (n ∷ ns) = n ∷ add_at i ns

-- requestCompleted's loop over the buckets.
unfoldable pub observe : ℕ → List ℕ → List ℕ → List ℕ
observe d [] ns = ns
observe d (b ∷ bs) [] = []
observe d (b ∷ bs) (n ∷ ns) = (if leb d b then n + 1 else n) ∷ observe d bs ns

abbrev pub counted : ℕ → ℕ → OutcomeCounts → OutcomeCounts
counted status d c = record {
  by_class = add_at (status_class_index status) c.by_class;
  duration = observe d request_duration_buckets c.duration;
  duration_nsec = c.duration_nsec + d;
  count = c.count + 1;
}

-- func (m *serverMetrics) requestStarted
abbrev pub request_started : RequestMetrics → RequestMetrics
request_started m = record m { in_flight = m.in_flight + 1 }

-- func (m *serverMetrics) requestCompleted
unfoldable pub request_completed : ℕ → ℕ → RequestOutcome → RequestMetrics → RequestMetrics
unfolding status_class_index add_at observe
request_completed status d forwarded m = record m {
  in_flight = m.in_flight - 1;
  of_forwarded = counted status d m.of_forwarded;
}
request_completed status d no_tunnel m = record m {
  in_flight = m.in_flight - 1;
  of_no_tunnel = counted status d m.of_no_tunnel;
}

-- func (m *serverMetrics) requestRateLimited
abbrev pub request_rate_limited : RequestMetrics → RequestMetrics
request_rate_limited m = record m { rate_limited = m.rate_limited + 1 }

-- type observedResponseWriter, with the statuses that it passed on
pub record ObservedResponseWriter : Type 0 where
  pub status_code : ℕ
  pub hijacked : Bool
  pub passed : List ℕ

abbrev pub new_observed : ObservedResponseWriter
new_observed = record { status_code = 0; hijacked = false; passed = [] }

-- func (w *observedResponseWriter) WriteHeader
unfoldable pub write_header : ℕ → ObservedResponseWriter → ObservedResponseWriter
write_header status w =
    if leb 100 status && (ltb status 200 && not (status == 101))
    then record w { passed = w.passed ++ status ∷ [] }
    else if not (w.status_code == 0)
    then w
    else record w { status_code = status; passed = w.passed ++ status ∷ [] }

-- func (w *observedResponseWriter) Write, less the bytes
unfoldable pub write : ObservedResponseWriter → ObservedResponseWriter
unfolding write_header
write w = if w.status_code == 0 then write_header 200 w else w

-- func (w *observedResponseWriter) Hijack
abbrev pub hijack : Bool → ObservedResponseWriter → ObservedResponseWriter
hijack done w = if done then record w { hijacked = true } else w

-- func (w *observedResponseWriter) status
unfoldable pub status : ObservedResponseWriter → ℕ
status w = if not (w.status_code == 0) then w.status_code else if w.hijacked then 101 else 200

-- What a handler does to the writer.
pub data Written : Type 0 where
  header : ℕ → Written
  body : Written
  hijacks : Bool → Written

unfoldable pub written : List Written → ObservedResponseWriter → ObservedResponseWriter
unfolding write_header write
written [] w = w
written (header s ∷ more) w = written more (write_header s w)
written (body ∷ more) w = written more (write w)
written (hijacks done ∷ more) w = written more (hijack done w)

-- http.Error
abbrev pub http_error : ℕ → List Written
http_error s = header s ∷ body ∷ []

module _ (rate : Rate) where
  -- What serveIngress uses of type Server.
  pub record Ingress : Type 0 where
    pub routes : Routes
    pub request_limiter : MultiLimiter rate
    pub metrics : RequestMetrics

  -- One request's end: the server, the response, and the session that it was forwarded to.
  pub record Exchange : Type 0 where
    pub server : Ingress
    pub writer : ObservedResponseWriter
    pub session : Option ℕ

  module _ (u : Unicode) (split_host_port : Text → Option Text) (proxy : ℕ → List Written) where
    -- func stripPort
    unfoldable pub strip_port : Text → Text
    strip_port h =
        if text_eq h [] then h else elim (split_host_port h) [ some host ↦ host | none ↦ h ]

    abbrev pub completed : ℕ → RequestOutcome → List Written → Option ℕ → Ingress → Exchange
    completed d outcome ws session s =
        let w = written ws new_observed in
        record {
          server = record s { metrics = request_completed (status w) d outcome s.metrics };
          writer = w;
          session = session;
        }

    -- func (s *Server) serveIngress, of a request to a host that took a duration
    unfoldable pub serve_ingress : ℕ → ℕ → Text → Ingress → Exchange
    unfolding strip_port written status request_completed
    serve_ingress now d raw_host s =
        let host = to_lower u (strip_port raw_host) in
        let begun = record s { metrics = request_started s.metrics } in
        elim (lookup host begun.routes) [
          | none ↦ completed d no_tunnel (http_error 503) none begun
          | some session ↦
              let (limiter, allowed) = allow rate host now begun.request_limiter in
              let taken = record begun { request_limiter = limiter } in
              if not allowed
              then completed d forwarded (http_error 429) none
                  (record taken { metrics = request_rate_limited taken.metrics })
              else completed d forwarded (proxy session) (some session) taken
        ]
