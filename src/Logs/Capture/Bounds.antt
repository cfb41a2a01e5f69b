-- ===== src/Logs/Capture/Bounds.antt =====
-- A captured message never takes more room than the limit, so Append never refuses one for its size.
use routeup.Base.{
  sort_by, Text, Option-cases, length, text_eq_iff, lookup, insert, ℕ, ◌+◌, ◌≤◌, ◌≡◌, refl, Bool,
  none, some, List, [], ◌∷◌, ◌++◌, arith, ltb, Bool-cases, take, length-append, length-take-lt, ◌-◌,
  inl, inr, false,
}
use routeup.Strings.{Unicode}
use routeup.Logs.Capture.{
  Headers, max_captured_message_bytes, MessageCapture, values_bytes, header_bytes, message_bytes,
  add_value, Progress, capture_values, capture_from, new_message_capture, append_bytes, Chunk, read,
  reads, take_message,
}

values_bytes-append :
    (key : Text) (vs : List Text) (v : Text)
    → values_bytes key (vs ++ v ∷ []) ≡ values_bytes key vs + (length key + length v)
unfolding values_bytes
values_bytes-append key [] v = omega arith
values_bytes-append key (w ∷ vs) v = omega (arith, values_bytes-append key vs v)

header_bytes-insert_new :
    (key v : Text) (hs : Headers)
    → lookup key hs ≡ none
    → header_bytes (insert key (v ∷ []) hs) ≡ header_bytes hs + (length key + length v)
unfolding header_bytes insert lookup
header_bytes-insert_new key v [] h = omega arith
header_bytes-insert_new key v ((k, ws) ∷ hs) h = ground (arith, header_bytes-insert_new key v hs)

header_bytes-insert_old :
    (key v : Text) (vs : List Text) (hs : Headers)
    → lookup key hs ≡ some vs
    → header_bytes (insert key (vs ++ v ∷ []) hs) ≡ header_bytes hs + (length key + length v)
unfolding header_bytes insert lookup
header_bytes-insert_old key v vs [] h = cc
header_bytes-insert_old key v vs ((k, ws) ∷ hs) h =
    ground
      (arith, text_eq_iff k key, values_bytes-append key vs v, header_bytes-insert_old key v vs hs)

header_bytes-add_value :
    (key v : Text) (hs : Headers)
    → header_bytes (add_value key v hs) ≡ header_bytes hs + (length key + length v)
unfolding add_value
header_bytes-add_value key v hs = elim (Option-cases (lookup key hs)) [
  | inl e ↦ ground (arith, header_bytes-insert_new key v hs e)
  | inr (vs, e) ↦ ground (arith, header_bytes-insert_old key v vs hs e)
]

-- What is captured and the room that is left make up the limit.
abbrev pub Balanced : ℕ → Progress → Type 0
Balanced limit p = header_bytes p.captured + p.remaining ≡ limit

fits-le : (a b : ℕ) → ltb a b ≡ false → b ≤ a
fits-le a b h = ground arith

capture_values-Balanced :
    (limit : ℕ) (key : Text) (vs : List Text) (p : Progress)
    → Balanced limit p
    → Balanced limit (capture_values key vs p)
unfolding capture_values
capture_values-Balanced limit key [] p h = h
capture_values-Balanced limit key (v ∷ vs) p h =
    elim (Bool-cases (ltb p.remaining (length key + length v))) [
      | inl small ↦ rw small h
      | inr fits ↦ rw fits (
          capture_values-Balanced limit key vs _
            (omega (arith, header_bytes-add_value key v p.captured, fits-le _ _ fits)))
    ]

capture_from-Balanced :
    (u : Unicode) (redacted : List Text) (limit : ℕ) (hs : Headers) (p : Progress)
    → Balanced limit p
    → Balanced limit (capture_from u redacted hs p)
unfolding capture_from
capture_from-Balanced u redacted limit [] p h = h
capture_from-Balanced u redacted limit ((key, vs) ∷ hs) p h =
    let now = capture_values-Balanced limit key vs p h in
    ground (
      arith,
      capture_from-Balanced u redacted limit hs p h,
      now,
      capture_from-Balanced u redacted limit hs (capture_values key vs p) now,
    )

-- The headers and the limit left for the body make up the limit of a message; the body keeps to it.
pub record IsBounded (c : MessageCapture) : Type 0 where
  pub balanced : header_bytes c.headers + c.limit ≡ max_captured_message_bytes
  pub within : length c.bytes ≤ c.limit

new_message_capture-IsBounded :
    (u : Unicode) (headers : Headers) (no_body : Bool) (redact : List Text)
    → IsBounded (new_message_capture u headers no_body redact)
unfolding new_message_capture
new_message_capture-IsBounded u headers no_body redact = record {
  balanced =
      capture_from-Balanced u _ max_captured_message_bytes (sort_by (λ h. h.0) headers) _
        (unfold header_bytes in refl);
  within = omega arith;
}

append_bytes-IsBounded :
    (chunk : Text) (c : MessageCapture) → IsBounded c → IsBounded (append_bytes chunk c)
unfolding append_bytes
append_bytes-IsBounded chunk c v = ground (
  arith,
  length-append c.bytes chunk,
  length-append c.bytes (take (c.limit - length c.bytes) chunk),
  length-take-lt (c.limit - length c.bytes) chunk,
)

read-IsBounded : (r : Chunk) (c : MessageCapture) → IsBounded c → IsBounded (read r c)
unfolding read
read-IsBounded r c v = ground (arith, append_bytes-IsBounded r.bytes c v)

reads-IsBounded : (rs : List Chunk) (c : MessageCapture) → IsBounded c → IsBounded (reads rs c)
unfolding reads
reads-IsBounded [] c v = v
reads-IsBounded (r ∷ rs) c v = reads-IsBounded rs (read r c) (read-IsBounded r c v)

-- Whatever the headers and however the body is read, in full or in part, the message that Take
-- returns takes at most 256 KiB.
pub take_message-bounded :
    (u : Unicode) (headers : Headers) (no_body : Bool) (redact : List Text) (rs : List Chunk)
    → message_bytes (some (take_message (reads rs (new_message_capture u headers no_body redact))))
      ≤ max_captured_message_bytes
unfolding take_message message_bytes
take_message-bounded u headers no_body redact rs =
    let v = reads-IsBounded rs _ (new_message_capture-IsBounded u headers no_body redact) in
    omega (arith, v.balanced, v.within)
