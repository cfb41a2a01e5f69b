-- ===== src/Logs/Capture/Prefix.antt =====
-- The captured body is a prefix of what was read, and all of it if the message is marked complete.
use routeup.Base.{
  Text, length, ◌≤◌, ◌≡◌, true, false, List, [], ◌∷◌, ◌++◌, ltb, ◌==◌, Bool-cases, ◌-◌, inl, inr,
  append_assoc, arith, drop, take, length-append, length-take-lt, take-append-drop, refl, sym, ap,
  subst, ◌∙◌, Bool, append-nil, if◌then◌else◌,
}
use routeup.Strings.{Unicode}
use routeup.Logs.Capture.{
  MessageCapture, append_bytes, Chunk, Headers, new_message_capture, read, reads, take_message,
}

-- All bytes that some reads bring.
abbrev pub all_bytes : List Chunk → Text
all_bytes [] = []
all_bytes (r ∷ rs) = r.bytes ++ all_bytes rs

pub record IsPrefix (c : MessageCapture) (given : Text) : Type 0 where
  pub lost : Text
  pub parts : given ≡ c.bytes ++ lost
  pub whole : c.truncated ≡ false → lost ≡ []
  pub full : c.truncated ≡ true → length c.bytes ≡ c.limit
  pub within : length c.bytes ≤ c.limit

cut-length :
    (chunk : Text) (c : MessageCapture)
    → length c.bytes ≤ c.limit
    → ltb (c.limit - length c.bytes) (length chunk) ≡ true
    → length (c.bytes ++ take (c.limit - length c.bytes) chunk) ≡ c.limit
cut-length chunk c h cut = ground (
  arith,
  length-append c.bytes (take (c.limit - length c.bytes) chunk),
  length-take-lt (c.limit - length c.bytes) chunk,
)

append_bytes-IsPrefix :
    (chunk given : Text) (c : MessageCapture)
    → IsPrefix c given
    → IsPrefix (append_bytes chunk c) (given ++ chunk)
unfolding append_bytes
append_bytes-IsPrefix chunk given c v = elim (Bool-cases (c.limit - length c.bytes == 0)) [
  | inl none_left ↦ rw none_left (record {
    lost = v.lost ++ chunk;
    parts = ground (arith, v.parts, append_assoc c.bytes v.lost chunk);
    whole = λ e. cc;
    full = λ e. ground (arith, v.within);
    within = v.within;
  })
  | inr some_left ↦
      let untruncated : c.truncated ≡ false = ground (arith, v.full) in
      let exact : given ≡ c.bytes =
        v.parts ∙ ap (λ t. c.bytes ++ t) (v.whole untruncated) ∙ append-nil c.bytes in
      elim (Bool-cases (ltb (c.limit - length c.bytes) (length chunk))) [
        | inl cut ↦
            rw (some_left, cut)
              (record {
                lost = drop (c.limit - length c.bytes) chunk;
                parts =
                    ap (λ g. g ++ chunk) exact
                    ∙ ap (λ t. c.bytes ++ t)
                        (sym (take-append-drop (c.limit - length c.bytes) chunk))
                    ∙ sym (append_assoc c.bytes _ _);
                whole = λ e. cc;
                full = λ e. cut-length chunk c v.within cut;
                within = omega (arith, cut-length chunk c v.within cut);
              })
        | inr fits ↦
            rw (some_left, fits)
              (record {
                lost = [];
                parts = ap (λ g. g ++ chunk) exact ∙ sym (append-nil (c.bytes ++ chunk));
                whole = λ e. refl;
                full = λ e. cc untruncated;
                within = ground (arith, fits, v.within, length-append c.bytes chunk);
              })
      ]
]

kept-IsPrefix :
    (bytes given : Text) (c : MessageCapture)
    → IsPrefix c given
    → IsPrefix (if ltb 0 (length bytes) then append_bytes bytes c else c) (given ++ bytes)
kept-IsPrefix [] given c v = rw append-nil v
kept-IsPrefix (b ∷ bs) given c v =
    let some_bytes : ltb 0 (length (b ∷ bs)) ≡ true = ground arith in
    rw some_bytes (append_bytes-IsPrefix (b ∷ bs) given c v)

ended-IsPrefix :
    (given : Text) (c : MessageCapture)
    → IsPrefix c given
    → IsPrefix (record c { body_complete = true }) given
ended-IsPrefix given c v = record {
  lost = v.lost;
  parts = v.parts;
  whole = v.whole;
  full = v.full;
  within = v.within;
}

read-IsPrefix :
    (r : Chunk) (given : Text) (c : MessageCapture)
    → IsPrefix c given
    → IsPrefix (read r c) (given ++ r.bytes)
unfolding read
read-IsPrefix r given c v =
    let k = kept-IsPrefix r.bytes given c v in
    elim (Bool-cases r.eof) [
      | inl e ↦ rw e (ended-IsPrefix (given ++ r.bytes) _ k)
      | inr e ↦ rw e k
    ]

reads-IsPrefix :
    (rs : List Chunk) (given : Text) (c : MessageCapture)
    → IsPrefix c given
    → IsPrefix (reads rs c) (given ++ all_bytes rs)
unfolding reads
reads-IsPrefix [] given c v = rw append-nil v
reads-IsPrefix (r ∷ rs) given c v =
    subst (IsPrefix (reads rs (read r c))) (append_assoc given r.bytes (all_bytes rs))
      (reads-IsPrefix rs (given ++ r.bytes) (read r c) (read-IsPrefix r given c v))

new_message_capture-IsPrefix :
    (u : Unicode) (headers : Headers) (no_body : Bool) (redact : List Text)
    → IsPrefix (new_message_capture u headers no_body redact) []
unfolding new_message_capture
new_message_capture-IsPrefix u headers no_body redact = record {
  lost = [];
  parts = refl;
  whole = λ e. refl;
  full = λ e. cc;
  within = omega arith;
}

-- The body of the message that Take returns is a prefix of all that was read through the capture,
-- and the whole of it if the message is marked complete.
pub take_message-prefix :
    (u : Unicode) (headers : Headers) (no_body : Bool) (redact : List Text) (rs : List Chunk)
    → let m = take_message (reads rs (new_message_capture u headers no_body redact)) in
      (lost : Text) × (all_bytes rs ≡ m.body ++ lost) × (m.complete ≡ true → m.body ≡ all_bytes rs)
unfolding take_message
take_message-prefix u headers no_body redact rs =
    let c = reads rs (new_message_capture u headers no_body redact) in
    let v : IsPrefix c (all_bytes rs) =
      reads-IsPrefix rs [] _ (new_message_capture-IsPrefix u headers no_body redact) in
    (
      v.lost,
      v.parts,
      λ e. sym (v.parts ∙ ap (λ t. c.bytes ++ t) (v.whole (ground arith)) ∙ append-nil c.bytes),
    )
