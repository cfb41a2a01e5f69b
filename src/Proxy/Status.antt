-- ===== src/Proxy/Status.antt =====
-- The status of a forwarded request: what the client gets, and what is recorded; and the headers that
-- a public request takes along.
use routeup.Base.{
  if◌then◌else◌, ℤ, pos, eq_ℤ, eq_ℤ_iff, ◌≡◌, refl, sym, ◌∙◌, List, [], ◌∷◌, ◌++◌, append-nil,
  append_assoc, arith, any, Text, text_eq, lookup, ap, Option, none, some, Option-cases,
  text_eq_iff, insert, lookup-insert, inl, inr,
}
use routeup.Strings.{Unicode}
use routeup.Route.Target.{Target}
use routeup.Logs.Entry.{Entry}
use routeup.Logs.Capture.{Headers}
use routeup.Agent.Registry.{Routing}
use routeup.Proxy.{
  Request, Answer, failed, upgrade_failed, answered, Network, StatusWriter, write_header,
  write_headers, rewrite, forward, new_writer, write, copy_headers, answer_written, forwarded_names,
  copy_forwarded_headers,
}

-- The first status that is not zero.
abbrev pub first_status : List ℤ → ℤ
first_status [] = pos 0
first_status (s ∷ ss) = if eq_ℤ s (pos 0) then first_status ss else s

abbrev pub last_statuses : Answer → List ℤ
last_statuses failed = pos 502 ∷ []
last_statuses (upgrade_failed p) = pos 502 ∷ []
last_statuses (answered p) = p.status ∷ []

-- What is recorded: the upstream's status, also where its 101 could not be followed; or, where it
-- failed, the first status passed on.
abbrev pub recorded_status : List ℤ → Answer → ℤ
recorded_status interim failed = first_status (interim ++ pos 502 ∷ [])
recorded_status interim (upgrade_failed p) = first_status (p.status ∷ pos 502 ∷ [])
recorded_status interim (answered p) = p.status

write_headers-passed :
    (ss : List ℤ) (w : StatusWriter) → (write_headers ss w).passed ≡ w.passed ++ ss
unfolding write_headers write_header
write_headers-passed [] w = sym (append-nil w.passed)
write_headers-passed (s ∷ ss) w =
    write_headers-passed ss (write_header s w) ∙ append_assoc w.passed (s ∷ []) ss

write_headers-status :
    (ss : List ℤ) (w : StatusWriter) → (write_headers ss w).status ≡ first_status (w.status ∷ ss)
unfolding write_headers write_header
write_headers-status [] w = ground (arith, eq_ℤ_iff w.status (pos 0))
write_headers-status (s ∷ ss) w =
    write_headers-status ss (write_header s w) ∙ ground (arith, eq_ℤ_iff w.status (pos 0))

first_status-snoc :
    (ss : List ℤ) (s : ℤ)
    → first_status (ss ++ s ∷ [])
      ≡ (if eq_ℤ (first_status ss) (pos 0) then first_status (s ∷ []) else first_status ss)
first_status-snoc [] s = refl
first_status-snoc (t ∷ ss) s = ground (arith, first_status-snoc ss s)

module _ (u : Unicode) (net : Network) where
  answer_written-passed :
      (routing : Routing) (a : Answer) (w : StatusWriter)
      → (answer_written u net routing a w).0.passed ≡ w.passed ++ last_statuses a
  unfolding answer_written write write_header
  answer_written-passed routing failed w = ground arith
  answer_written-passed routing (upgrade_failed p) w = ground arith
  answer_written-passed routing (answered p) w = refl

  answer_written-status :
      (routing : Routing) (a : Answer) (interim : List ℤ)
      → (answer_written u net routing a (write_headers interim new_writer)).0.status
        ≡ recorded_status interim a
  unfolding answer_written write write_header
  answer_written-status routing failed interim = ground (
    arith,
    write_headers-status interim new_writer,
    first_status-snoc interim (pos 502),
    eq_ℤ_iff (first_status interim) (pos 0),
  )
  answer_written-status routing (upgrade_failed p) interim =
      ground (arith, eq_ℤ_iff p.status (pos 0))
  answer_written-status routing (answered p) interim = ground arith

  -- A forwarded request's client gets the 1xx statuses of the upstream and then its status, or 502
  -- where it failed or its 101 could not be followed. What is recorded is the upstream's status, the
  -- 101 too; where it failed, it is the first status that is not zero among those that the client got.
  pub forward-status :
      (routing : Routing) (t : Target) (r : Request) (e : Entry)
      → let x = net.round_trip (rewrite u net e.source t r) in
        ((forward u net routing t r e).writer.passed ≡ x.interim ++ last_statuses x.answer)
        × ((forward u net routing t r e).entry.status ≡ recorded_status x.interim x.answer)
  unfolding forward
  forward-status routing t r e =
      let x = net.round_trip (rewrite u net e.source t r) in
      (
        answer_written-passed routing x.answer (write_headers x.interim new_writer)
            ∙ ap (λ ss. ss ++ last_statuses x.answer) (write_headers-passed x.interim new_writer),
        answer_written-status routing x.answer x.interim,
      )

-- The public request's own header, where copyForwardedHeaders takes it along.
abbrev pub taken_along : List Text → Text → Headers → Option (List Text)
taken_along names name src = elim (lookup name src) [
  | none ↦ none
  | some [] ↦ none
  | some (v ∷ vs) ↦ if any (text_eq name) names then some (v ∷ vs) else none
]

copy_headers-lookup :
    (names : List Text) (name : Text) (dst src : Headers)
    → lookup name (copy_headers names dst src)
      ≡ elim (taken_along names name src) [ none ↦ lookup name dst | some vs ↦ some vs ]
unfolding copy_headers
copy_headers-lookup [] name dst src = ground arith
copy_headers-lookup (k ∷ names) name dst src = elim (Option-cases (lookup k src)) [
  | inl q ↦ ground (arith, copy_headers-lookup names name dst src, text_eq_iff name k, q)
  | inr ([], q) ↦ ground (arith, copy_headers-lookup names name dst src, text_eq_iff name k, q)
  | inr (v ∷ vs, q) ↦ ground (
    arith,
    copy_headers-lookup names name (insert k (v ∷ vs) dst) src,
    lookup-insert k name (v ∷ vs) dst,
    text_eq_iff name k,
    text_eq_iff k name,
    q,
  )
]

-- The header of a public request's upstream is the client's for the three names, where the client
-- sent a value; it is the prepared one for any other name, or where there is no value.
pub copy_forwarded_headers-lookup :
    (name : Text) (dst src : Headers)
    → lookup name (copy_forwarded_headers dst src)
      ≡ elim (taken_along forwarded_names name src) [ none ↦ lookup name dst | some vs ↦ some vs ]
unfolding copy_forwarded_headers
copy_forwarded_headers-lookup name dst src = copy_headers-lookup forwarded_names name dst src
