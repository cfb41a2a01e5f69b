-- ===== src/Logs/Capture.antt =====
-- internal/logs/capture.go: a bounded copy of one HTTP message. Headers are a map from names to
-- values. Reading the source body is an event that brings the bytes read and whether the end came.
-- The copies that Take and clone make are equal to their originals, so a value stands for itself.
pub mod Bounds
pub mod Prefix
use routeup.Base.{
  Text, ltb, leb, ◌==◌, if◌then◌else◌, length, take, any, text_eq, Map, lookup, insert, ℕ, ◌+◌, ◌-◌,
  Bool, true, false, not, ◌&&◌, ◌||◌, sort_by, Option, none, some, List, [], ◌∷◌, ◌++◌,
}
use routeup.Strings.{Unicode, to_lower, trim_space}

abbrev pub max_captured_message_bytes : ℕ
max_captured_message_bytes = 262144

abbrev pub Headers : Type 0
Headers = Map (List Text)

-- type CapturedMessage
pub record CapturedMessage : Type 0 where
  pub headers : Headers
  pub redacted_headers : List Text
  pub body : Text
  pub complete : Bool

-- type Capture
pub record Capture : Type 0 where
  pub request : Option CapturedMessage
  pub response : Option CapturedMessage

-- type MessageCapture, less its lock and its source
pub record MessageCapture : Type 0 where
  pub headers : Headers
  pub redacted_headers : List Text
  pub headers_complete : Bool
  pub limit : ℕ
  pub bytes : Text
  pub body_complete : Bool
  pub truncated : Bool

-- The inner loop of headerBytes.
unfoldable pub values_bytes : Text → List Text → ℕ
values_bytes key [] = 0
values_bytes key (v ∷ vs) = length key + length v + values_bytes key vs

-- func headerBytes
unfoldable pub header_bytes : Headers → ℕ
unfolding values_bytes
header_bytes [] = 0
header_bytes ((key, vs) ∷ hs) = values_bytes key vs + header_bytes hs

-- func messageBytes
unfoldable pub message_bytes : Option CapturedMessage → ℕ
message_bytes none = 0
message_bytes (some m) = header_bytes m.headers + length m.body

-- func (capture *Capture) withinLimit
unfoldable pub within_limit : Option Capture → Bool
unfolding message_bytes
within_limit none = true
within_limit (some c) =
    leb (message_bytes c.request) max_captured_message_bytes
    && leb (message_bytes c.response) max_captured_message_bytes

-- http.Header.Add, which appends to the values of the key
unfoldable pub add_value : Text → Text → Headers → Headers
add_value key v hs = elim (lookup key hs) [
  | none ↦ insert key (v ∷ []) hs
  | some vs ↦ insert key (vs ++ v ∷ []) hs
]

-- The state of captureHeaders's loops: what is captured, what room is left, whether all fitted.
pub record Progress : Type 0 where
  pub captured : Headers
  pub remaining : ℕ
  pub complete : Bool

-- The inner loop of captureHeaders, over the values of one key.
unfoldable pub capture_values : Text → List Text → Progress → Progress
capture_values key [] p = p
capture_values key (v ∷ vs) p =
    let cost = length key + length v in
    let rest =
      capture_values key vs
        (record p { captured = add_value key v p.captured; remaining = p.remaining - cost }) in
    if ltb p.remaining cost then record p { complete = false } else rest

-- The outer loop of captureHeaders, over the headers in the order of their names.
unfoldable pub capture_from : Unicode → List Text → Headers → Progress → Progress
unfolding capture_values
capture_from u redacted [] p = p
capture_from u redacted ((key, vs) ∷ hs) p =
    let skipped = capture_from u redacted hs p in
    let now = capture_values key vs p in
    let next = capture_from u redacted hs now in
    if any (text_eq (to_lower u key)) redacted then skipped else if now.complete then next else now

-- func captureHeaders, which goes through the headers in the order of their names
unfoldable pub capture_headers : Unicode → List Text → ℕ → Headers → Progress
unfolding capture_from sort_by
capture_headers u redacted limit hs =
    capture_from u redacted (sort_by (λ h. h.0) hs)
      (record { captured = []; remaining = limit; complete = true })

-- func redactedHeaderSet, a set of lowered names: a list without repetitions
unfoldable pub redacted_header_set : Unicode → List Text → List Text
redacted_header_set u [] = []
redacted_header_set u (h ∷ hs) =
    let rest = redacted_header_set u hs in
    let name = trim_space u h in
    if text_eq name [] || any (text_eq (to_lower u name)) rest then rest else to_lower u name ∷ rest

-- func sortedHeaderNames
unfoldable pub sorted_header_names : List Text → List Text
unfolding sort_by
sorted_header_names names = sort_by (λ name. name) names

-- func NewMessageCapture; `no_body` says that there is no body or that it is http.NoBody
unfoldable pub new_message_capture : Unicode → Headers → Bool → List Text → MessageCapture
unfolding capture_headers redacted_header_set sorted_header_names
new_message_capture u headers no_body redact =
    let redacted = redacted_header_set u redact in
    let p = capture_headers u redacted max_captured_message_bytes headers in
    record {
      headers = p.captured;
      redacted_headers = sorted_header_names redacted;
      headers_complete = p.complete;
      limit = p.remaining;
      bytes = [];
      body_complete = no_body;
      truncated = false;
    }

-- func (capture *MessageCapture) appendLocked
unfoldable pub append_bytes : Text → MessageCapture → MessageCapture
append_bytes chunk c =
    let remaining = c.limit - length c.bytes in
    if remaining == 0
    then record c { truncated = true }
    else if ltb remaining (length chunk)
    then record c { bytes = c.bytes ++ take remaining chunk; truncated = true }
    else record c { bytes = c.bytes ++ chunk }

-- One read of the source: its bytes, and whether it returned io.EOF.
pub record Chunk : Type 0 where
  pub bytes : Text
  pub eof : Bool

-- func (capture *MessageCapture) Read
unfoldable pub read : Chunk → MessageCapture → MessageCapture
read r c =
    let kept = (if ltb 0 (length r.bytes) then append_bytes r.bytes c else c) in
    if r.eof then record kept { body_complete = true } else kept

-- A run of reads.
unfoldable pub reads : List Chunk → MessageCapture → MessageCapture
reads [] c = c
reads (r ∷ rs) c = reads rs (read r c)

-- func (capture *MessageCapture) Take
unfoldable pub take_message : MessageCapture → CapturedMessage
take_message c = record {
  headers = c.headers;
  redacted_headers = c.redacted_headers;
  body = c.bytes;
  complete = c.headers_complete && (c.body_complete && not c.truncated);
}
