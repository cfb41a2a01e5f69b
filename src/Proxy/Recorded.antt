-- ===== src/Proxy/Recorded.antt =====
-- What the agent's log keeps of a request.
use routeup.Base.{
  Text, ◌≤◌, ◌≡◌, refl, Bool, true, false, Option, none, some, List, arith, ◌==◌, if◌then◌else◌,
  Bool-cases, Option-cases, is_some, length, ok, lookup, ℕ, inl, inr, [], ◌∷◌, ◌++◌, ◌∙◌,
  text_eq_refl, Map, suc,
}
use routeup.Strings.{Unicode}
use routeup.Logs.Capture.{
  Headers, within_limit, max_captured_message_bytes, MessageCapture, message_bytes, Chunk,
  take_message,
}
use routeup.Logs.Capture.Bounds.{take_message-bounded}
use routeup.Logs.Entry.{Entry, valid_source}
use routeup.Logs.Store.{Store, append, generate_from, generate_id, push, make_room, complete_entry}
use routeup.Logs.Store.Refinement.{Inv, contents}
use routeup.Logs.Store.Append.{newest, pushed-newest}
use routeup.Route.Target.{Target, match_target}
use routeup.Route.Pattern.{path_allowed}
use routeup.Agent.Registry.{Routing}
use routeup.Proxy.{
  Request, Answer, failed, answered, upgrade_failed, Network, StatusWriter, capture_of, Timing,
  turned_down, captured, answer_written, forward, serve_targets, new_writer, write_headers, begun,
  rewrite, record_entry,
}

IsSmall : Option MessageCapture → Type 0
IsSmall none = Unit
IsSmall (some c) = message_bytes (some (take_message c)) ≤ max_captured_message_bytes

capture_of-within :
    (q p : Option MessageCapture) → IsSmall q → IsSmall p → within_limit (capture_of q p) ≡ true
unfolding IsSmall within_limit message_bytes
capture_of-within none none h k = refl
capture_of-within (some q) none h k = ground (arith, h)
capture_of-within none (some p) h k = ground (arith, k)
capture_of-within (some q) (some p) h k = ground (arith, h, k)

module _ (u : Unicode) (net : Network) where
  captured-IsSmall :
      (wanted : Bool) (redact : List Text) (headers : Headers) (no_body : Bool) (rs : List Chunk)
      → IsSmall (captured u net wanted redact headers no_body rs)
  unfolding IsSmall
  captured-IsSmall true redact headers no_body rs = take_message-bounded u headers no_body redact rs
  captured-IsSmall false redact headers no_body rs = tt

  answer_written-IsSmall :
      (routing : Routing) (a : Answer) (w : StatusWriter)
      → IsSmall (answer_written u net routing a w).1
  unfolding IsSmall answer_written
  answer_written-IsSmall routing failed w = tt
  answer_written-IsSmall routing (upgrade_failed p) w =
      captured-IsSmall routing.capture_response routing.redact_headers p.headers p.no_body p.body
  answer_written-IsSmall routing (answered p) w =
      captured-IsSmall routing.capture_response routing.redact_headers p.headers p.no_body p.body

  forward-within :
      (routing : Routing) (t : Target) (r : Request) (e : Entry)
      → within_limit (forward u net routing t r e).entry.capture ≡ true
  unfolding forward
  forward-within routing t r e =
      let x = net.round_trip (rewrite u net e.source t r) in
      capture_of-within
        (captured u net routing.capture_request routing.redact_headers r.headers r.no_body x.sent)
        (answer_written u net routing x.answer (write_headers x.interim new_writer)).1
        (captured-IsSmall routing.capture_request routing.redact_headers r.headers r.no_body x.sent)
        (answer_written-IsSmall routing x.answer (write_headers x.interim new_writer))

  serve_targets-within :
      (routing : Routing) (exposed : List Text) (when : Timing) (r : Request) (e : Entry)
      → e.capture ≡ none
      → within_limit (serve_targets u net routing exposed when r e).entry.capture ≡ true
  unfolding serve_targets turned_down within_limit
  serve_targets-within routing exposed when r e n =
      elim (Bool-cases (path_allowed u exposed r.path r.escaped)) [
        | inr b ↦ rw (b, n) refl
        | inl b ↦ elim (Option-cases (match_target routing.targets r.path)) [
          | inl q ↦ rw (b, q, n) refl
          | inr (t, q) ↦ rw (b, q) (forward-within routing t r (begun when r e))
        ]
      ]

  serve_targets-named :
      (routing : Routing) (exposed : List Text) (when : Timing) (r : Request) (e : Entry)
      → ((serve_targets u net routing exposed when r e).entry.source ≡ e.source)
        × ((serve_targets u net routing exposed when r e).entry.id ≡ e.id)
  unfolding serve_targets turned_down forward
  serve_targets-named routing exposed when r e = ground arith

-- The entry as Append stores it, under a drawn identifier.
abbrev pub logged : ℕ → Text → Entry → Entry
logged now id e = record e {
  id = id;
  started_at = if e.started_at == 0 then now else e.started_at;
  captured = is_some e.capture;
}

generate_id-drawn :
    (draw : ℕ → Option Text) (id : Text) (ids : Map ℕ)
    → draw 0 ≡ some id
    → lookup id ids ≡ none
    → generate_id draw ids ≡ ok id
unfolding generate_id generate_from
generate_id-drawn draw id ids d new = generate_from-drawn 3
  where
    generate_from-drawn : (n : ℕ) → generate_from (suc n) draw 0 ids ≡ ok id
    generate_from-drawn n = rw (generate_from, d, new) refl

record_drawn :
    (now : ℕ) (draw : ℕ → Option Text) (id : Text) (s : Store) (e : Entry)
    → Inv s
    → draw 0 ≡ some id
    → lookup id s.by_id ≡ none
    → valid_source e.source ≡ true
    → e.id ≡ []
    → within_limit e.capture ≡ true
    → (t : Store) × (record_entry now draw (some s) e ≡ some t)
      × Inv t
      × (contents t ≡ newest (length s.entries) (contents s ++ logged now id e ∷ []))
unfolding record_entry append complete_entry
record_drawn now draw id s e v d new known unnamed fits =
    let done : complete_entry now draw s e ≡ ok (logged now id e) =
      rw
        (
          complete_entry,
          known,
          unnamed,
          text_eq_refl [],
          generate_id-drawn draw id s.by_id d new,
          new,
          fits,
        )
        refl in
    let (inv, newer) = pushed-newest s (logged now id e) v new in
    (push (make_room s) (logged now id e), rw (record_entry, append, done) refl, inv, newer)

module _ (u : Unicode) (net : Network) where
  -- Where the store's invariant holds and the identifier drawn first is not in use, every request
  -- that serveTargets serves for an entry with a known source, still without identifier and capture,
  -- is recorded: the store's contents are the newest of the old ones and the request's entry under
  -- the drawn identifier, captures and all, whatever the upstream sent.
  pub serve_targets-recorded :
      (routing : Routing) (exposed : List Text) (when : Timing) (r : Request) (e : Entry)
      → (now : ℕ) (draw : ℕ → Option Text) (id : Text) (s : Store) → Inv s
      → draw 0 ≡ some id
      → lookup id s.by_id ≡ none
      → valid_source e.source ≡ true
      → e.id ≡ []
      → e.capture ≡ none
      → (t : Store) × (record_entry now draw
            (some s)
            (serve_targets u net routing exposed when r e).entry
          ≡ some t)
        × Inv t
        × (contents t
            ≡ newest (length s.entries) (
                contents s
                ++ logged now id (serve_targets u net routing exposed when r e).entry ∷ []))
  serve_targets-recorded routing exposed when r e now draw id s v d new known unnamed bare =
      let (source, named) = serve_targets-named u net routing exposed when r e in
      record_drawn now draw id s (serve_targets u net routing exposed when r e).entry v d new
        (rw source known) (named ∙ unnamed)
        (serve_targets-within u net routing exposed when r e bare)
