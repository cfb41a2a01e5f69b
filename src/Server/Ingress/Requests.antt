-- ===== src/Server/Ingress/Requests.antt =====
-- Which public requests reach a tunnel, and what the others are told.
use routeup.Base.{
  Text, Bool-cases, Option-cases, lookup, ℕ, ◌≡◌, refl, ◌⊎◌, inl, inr, true, false, Option, none,
  some, List, [], ◌∷◌,
}
use routeup.Strings.{Unicode, to_lower}
use routeup.Server.Limiter.{Rate, allow}
use routeup.Server.Ingress.{
  Written, write_header, write, written, Ingress, Exchange, strip_port, serve_ingress,
}

module _ (rate : Rate) (u : Unicode) (split_host_port : Text → Option Text)
    (proxy : ℕ → List Written) where
  abbrev host_of : Text → Text
  host_of raw = to_lower u (strip_port rate u split_host_port proxy raw)

  abbrev serve : ℕ → ℕ → Text → Ingress rate → Exchange rate
  serve = serve_ingress rate u split_host_port proxy

  -- What becomes of a request, by whether it reaches a session.
  abbrev pub Dispatched : ℕ → Text → Ingress rate → Exchange rate → Type 0
  Dispatched now raw s x = elim x.session [
    | some session ↦
        (lookup (host_of raw) s.routes ≡ some session)
        × ((allow rate (host_of raw) now s.request_limiter).1 ≡ true)
    | none ↦
        ((lookup (host_of raw) s.routes ≡ none) × (x.writer.passed ≡ 503 ∷ []))
        ⊎ (((allow rate (host_of raw) now s.request_limiter).1 ≡ false)
            × (x.writer.passed ≡ 429 ∷ []))
  ]

  -- A request is forwarded only to the session that holds its host, lowered and without its port, and
  -- only where the limiter of this host allows it. Any other is answered at once: by 503 where no
  -- session holds the host, and by 429 where the limiter refuses.
  pub serve_ingress-Dispatched :
      (now d : ℕ) (raw : Text) (s : Ingress rate) → Dispatched now raw s (serve now d raw s)
  unfolding serve_ingress written write_header write
  serve_ingress-Dispatched now d raw s = elim (Option-cases (lookup (host_of raw) s.routes)) [
    | inl q ↦ rw (serve_ingress, q) (inl (q, refl))
    | inr (session, q) ↦ elim (Bool-cases (allow rate (host_of raw) now s.request_limiter).1) [
      | inl b ↦ rw (serve_ingress, q, b) (q, b)
      | inr b ↦ rw (serve_ingress, q, b) (inr (b, refl))
    ]
  ]
