-- ===== src/Logs/Store/Listing.antt =====
-- What a listing shows of the contents.
use routeup.Base.{
  length, ℕ, ◌≡◌, refl, List, arith, suc, ltb, if◌then◌else◌, keep, ℤ, pos, pos_part, ltb_ℤ, zero,
  ◌+◌, ◌&&◌, map, Bool-cases, drop, take, eq_ℤ_iff, text_eq_iff, ◌-◌, ◌≤◌, ◌⊎◌, inl, inr, true,
  false, none, [], ◌∷◌, ◌++◌, length-append, length-take-lt, take-append-drop, sym, negsuc, ◌<◌, ap,
}
use routeup.Strings.{Unicode, equal_fold}
use routeup.Logs.Entry.{Entry}
use routeup.Logs.Store.{Store, metadata_entry, ListOptions, matches, matching_from, list}
use routeup.Logs.Store.Ring.{window}
use routeup.Logs.Store.Refinement.{contents}

-- The list of what the loop of matchingEntriesLocked collects.
matching_from-window :
    (u : Unicode) (opts : ListOptions) (es : List Entry) (start offset n : ℕ)
    → matching_from u opts es start offset n
      ≡ map metadata_entry (keep (matches u opts) (window (length es) es start offset n))
unfolding matching_from window
matching_from-window u opts es start offset zero = refl
matching_from-window u opts es start offset (suc n) =
    ground (arith, matching_from-window u opts es start (offset + 1) n)

-- An entry is one that the options ask for.
pub record Wanted (u : Unicode) (opts : ListOptions) (e : Entry) : Type 0 where
  pub of_route : (opts.route_name ≡ []) ⊎ (e.route_name ≡ opts.route_name)
  pub of_source : (opts.source ≡ []) ⊎ (e.source ≡ opts.source)
  pub recent : opts.since ≤ e.started_at
  pub of_method : (opts.method ≡ []) ⊎ (equal_fold u opts.method e.method ≡ true)
  pub of_status : (opts.status ≡ pos 0) ⊎ (e.status ≡ opts.status)

matches-Wanted :
    (u : Unicode) (opts : ListOptions) (e : Entry) → matches u opts e ≡ true → Wanted u opts e
unfolding matches
matches-Wanted u opts e h = record {
  of_route =
      ground (arith, h, text_eq_iff opts.route_name [], text_eq_iff opts.route_name e.route_name);
  of_source = ground (arith, h, text_eq_iff opts.source [], text_eq_iff opts.source e.source);
  recent = ground (arith, h);
  of_method = ground (arith, h, text_eq_iff opts.method []);
  of_status = ground (arith, h, eq_ℤ_iff opts.status (pos 0), eq_ℤ_iff opts.status e.status);
}

Wanted-matches :
    (u : Unicode) (opts : ListOptions) (e : Entry) → Wanted u opts e → matches u opts e ≡ true
unfolding matches
Wanted-matches u opts e w = ground (
  arith,
  w.of_route,
  w.of_source,
  w.recent,
  w.of_method,
  w.of_status,
  text_eq_iff opts.route_name [],
  text_eq_iff opts.route_name e.route_name,
  text_eq_iff opts.source [],
  text_eq_iff opts.source e.source,
  text_eq_iff opts.method [],
  eq_ℤ_iff opts.status (pos 0),
  eq_ℤ_iff opts.status e.status,
)

-- The second list has the entries of the first that are asked for, in their order and without their
-- captures, and no others.
pub data Chosen (u : Unicode) (opts : ListOptions) : List Entry → List Entry → Type 0 where
  nothing : Chosen u opts [] []
  taken :
      {e : Entry}
      → {es outs : List Entry} → Wanted u opts e
      → Chosen u opts es outs
      → Chosen u opts (e ∷ es) (record e { capture = none } ∷ outs)
  passed :
      {e : Entry}
      → {es outs : List Entry} → ¬ Wanted u opts e
      → Chosen u opts es outs
      → Chosen u opts (e ∷ es) outs

keep-Chosen :
    (u : Unicode) (opts : ListOptions) (es : List Entry)
    → Chosen u opts es (map metadata_entry (keep (matches u opts) es))
keep-Chosen u opts [] = nothing
keep-Chosen u opts (e ∷ es) = elim (Bool-cases (matches u opts e)) [
  | inl b ↦ rw b (taken (matches-Wanted u opts e b) (keep-Chosen u opts es))
  | inr b ↦
      rw b (passed (λ w. ground (arith, b, Wanted-matches u opts e w)) (keep-Chosen u opts es))
]

-- A list within a limit: all of it, where there is no positive limit or the list is no longer than
-- the limit; and otherwise its end, of just the length of the limit.
pub data Within (limit : ℤ) (es outs : List Entry) : Type 0 where
  whole :
      (length es ≤ pos_part limit) ⊎ (ltb_ℤ (pos 0) limit ≡ false)
      → outs ≡ es
      → Within limit es outs
  ending :
      ltb_ℤ (pos 0) limit ≡ true
      → (older : List Entry) → es ≡ older ++ outs
      → length outs ≡ pos_part limit
      → Within limit es outs

above_zero : (limit : ℤ) → ltb_ℤ (pos 0) limit ≡ true → 0 < pos_part limit
above_zero (pos n) h = ground arith
above_zero (negsuc n) h = absurd (ground (arith, h))

length-ending :
    (n : ℕ) (es : List Entry) → 0 < n → n < length es → length (drop (length es - n) es) ≡ n
length-ending n es p q = omega (
  arith,
  p,
  q,
  length-append {0} (take (length es - n) es) (drop (length es - n) es),
  ap length (take-append-drop (length es - n) es),
  length-take-lt (length es - n) es (omega (arith, p, q)),
)

limited-Within :
    (limit : ℤ) (es : List Entry)
    → Within limit es (
        if ltb_ℤ (pos 0) limit && ltb (pos_part limit) (length es)
        then drop (length es - pos_part limit) es
        else es)
limited-Within limit es = elim (Bool-cases (ltb_ℤ (pos 0) limit)) [
  | inr n ↦ rw n (whole (inr n) refl)
  | inl p ↦ elim (Bool-cases (ltb (pos_part limit) (length es))) [
    | inr n ↦ rw (p, n) (whole (inl (ground (arith, n))) refl)
    | inl q ↦
        rw (p, q)
          (ending p (take (length es - pos_part limit) es)
            (sym (take-append-drop (length es - pos_part limit) es))
            (length-ending (pos_part limit) es (above_zero limit p) (ground (arith, q))))
  ]
]

-- Listing shows the entries of the contents that the options ask for, oldest first, without captures,
-- and no others: all of them, or the newest where there are more than a positive limit.
pub list-contents :
    (u : Unicode) (opts : ListOptions) (s : Store)
    → (es : List Entry) × Chosen u opts (contents s) es × Within opts.limit es (list u opts s)
unfolding list contents
list-contents u opts s =
    let es =
      map metadata_entry
        (keep (matches u opts) (window (length s.entries) s.entries s.start 0 s.size)) in
    (
      es,
      keep-Chosen u opts (window (length s.entries) s.entries s.start 0 s.size),
      rw (matching_from-window u opts s.entries s.start 0 s.size) (limited-Within opts.limit es),
    )
