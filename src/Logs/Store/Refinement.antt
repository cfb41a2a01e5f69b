-- ===== src/Logs/Store/Refinement.antt =====
-- The ring refines a list of the newest entries, and the index of identifiers a search in it.
use routeup.Base.{
  Text, length, set, lookup, ℕ, suc, ◌≤◌, ◌<◌, ◌≡◌, none, List, [], ◌∷◌, arith, get_elem?,
  length-set, get_elem?-set_ne, ◌+◌, ◌-◌, ◌∙◌, ◌≢◌, some, if◌then◌else◌, text_eq, text_eq_iff,
  lookup-delete, refl, sym, ap, subst, get_elem?-set_self, lookup-insert, ◌++◌,
}
use routeup.Logs.Entry.{Entry, zero_entry}
use routeup.Logs.Store.{Store, get, remove_oldest, id_at, push}
use routeup.Logs.Store.Ring.{
  window, locate, slot, find, fetch-locate, Same, slot_cases, slot_injective, slot_next,
  window-Same, get_elem?-in_range, slot-lt, locate_absent, locate-Same, window_cons, locate_cons,
  window_snoc, locate_snoc,
}

-- The abstract state: the live entries, oldest first.
unfoldable pub contents : Store → List Entry
contents s = window (length s.entries) s.entries s.start 0 s.size

-- No two entries share an identifier.
abbrev pub DistinctIds : List Entry → Type 0
DistinctIds [] = Unit
DistinctIds (e ∷ es) = (find e.id es ≡ none) × DistinctIds es

pub record Inv (s : Store) : Type 0 where
  pub room : 0 < length s.entries
  pub started : s.start < length s.entries
  pub bounded : s.size ≤ length s.entries
  pub indexed :
      (id : Text) → lookup id s.by_id ≡ locate (length s.entries) s.entries id s.start 0 s.size
  pub distinct : DistinctIds (contents s)

-- In a store with the invariant, Get finds what a search in the contents finds.
pub get-contents : (s : Store) (id : Text) → Inv s → get s id ≡ find id (contents s)
unfolding get contents
get-contents s id v =
    ground (arith, v.indexed id, fetch-locate (length s.entries) s.entries id s.start 0 s.size)

pub absent-contents :
    (s : Store) (id : Text) → Inv s → lookup id s.by_id ≡ none → find id (contents s) ≡ none
absent-contents s id v h = sym (get-contents s id v) ∙ (unfold get in ground arith)

abbrev removed : Store → List Entry
removed s = set s.entries s.start zero_entry

abbrev cap : Store → ℕ
cap s = length s.entries

-- Dropping the oldest entry, where there is one.
module _ (s : Store) (n : ℕ) (v : Inv s) (full : s.size ≡ suc n) where
  head_slot : slot (cap s) s.start 0 ≡ s.start
  head_slot = omega (arith, slot_cases (cap s) s.start 0 v.started v.room)

  next_slot :
      (k : ℕ) → k < n → slot (cap s) (slot (cap s) s.start 1) (0 + k) ≡ slot (cap s) s.start (1 + k)
  next_slot k l =
      ap (slot (cap s) (slot (cap s) s.start 1)) (omega arith)
      ∙ slot_next (cap s) s.start k v.started (omega (arith, v.bounded, full))
      ∙ ap (slot (cap s) s.start) (omega arith)

  not_head : (k : ℕ) → k < n → s.start ≢ slot (cap s) s.start (1 + k)
  not_head k l e =
      slot_injective (cap s) s.start 0 (1 + k) v.started (omega arith)
        (omega (arith, v.bounded, full)) (head_slot ∙ e)

  removed-Same : Same (cap s) (removed s) s.entries (slot (cap s) s.start 1) s.start 0 1 n
  removed-Same k l = (
    next_slot k l,
    rw (next_slot k l) (get_elem?-set_ne s.entries s.start _ zero_entry (not_head k l)),
  )

  pub oldest : (e : Entry) × (get_elem? s.entries s.start ≡ some e)
  oldest = get_elem?-in_range s.entries s.start v.started

  rest-contents : contents (remove_oldest s) ≡ window (cap s) s.entries s.start 1 n
  unfolding contents remove_oldest
  rest-contents =
      let less : s.size - 1 ≡ n = omega (arith, full) in
      rw (less, length-set s.entries s.start zero_entry)
        (window-Same (cap s) (removed s) s.entries (slot (cap s) s.start 1) s.start 0 1 n
          removed-Same)

  rest-locate :
      (id : Text)
      → locate
          (length (remove_oldest s).entries)
          (remove_oldest s).entries
          id
          (remove_oldest s).start
          0
          (remove_oldest s).size
        ≡ locate (cap s) s.entries id s.start 1 n
  unfolding remove_oldest
  rest-locate id =
      let less : s.size - 1 ≡ n = omega (arith, full) in
      rw (less, length-set s.entries s.start zero_entry)
        (locate-Same (cap s) (removed s) s.entries (slot (cap s) s.start 1) s.start id 0 1 n
          removed-Same)

  head-window :
      window (cap s) s.entries s.start 0 (suc n) ≡ oldest.0 ∷ window (cap s) s.entries s.start 1 n
  head-window = window_cons (cap s) s.entries s.start oldest.0 0 n (rw head_slot oldest.1)

  head-locate :
      (id : Text)
      → locate (cap s) s.entries id s.start 0 (suc n)
        ≡ (if text_eq oldest.0.id id then some s.start else locate (cap s) s.entries id s.start 1 n)
  head-locate id =
      subst
        (λ i.
          locate (cap s) s.entries id s.start 0 (suc n)
          ≡ (if text_eq oldest.0.id id then some i else locate (cap s) s.entries id s.start 1 n))
        head_slot (locate_cons (cap s) s.entries s.start oldest.0 id 0 n (rw head_slot oldest.1))

  pub contents-remove_oldest : contents s ≡ oldest.0 ∷ contents (remove_oldest s)
  contents-remove_oldest = rw (rest-contents) (unfold contents in rw full head-window)

  distinct-cons : DistinctIds (oldest.0 ∷ contents (remove_oldest s))
  distinct-cons = subst DistinctIds contents-remove_oldest v.distinct

  oldest_gone : locate (cap s) s.entries oldest.0.id s.start 1 n ≡ none
  oldest_gone =
      locate_absent (cap s) s.entries oldest.0.id s.start 1 n
        (subst (λ es. find oldest.0.id es ≡ none) rest-contents distinct-cons.0)

  pub rest-indexed :
      (id : Text) → lookup id (remove_oldest s).by_id ≡ locate (cap s) s.entries id s.start 1 n
  unfolding remove_oldest
  rest-indexed id = ground (
    arith,
    lookup-delete (id_at s.entries s.start) id s.by_id,
    oldest.1,
    oldest_gone,
    text_eq_iff oldest.0.id id,
    v.indexed id,
    head-locate id,
    full,
  )

  pub remove_oldest-Inv : Inv (remove_oldest s)
  remove_oldest-Inv = record {
    room = unfold remove_oldest in rw length-set v.room;
    started = unfold remove_oldest in rw length-set (slot-lt (cap s) s.start 1 v.room);
    bounded = unfold remove_oldest in rw length-set (omega (arith, v.bounded));
    indexed = λ id. rest-indexed id ∙ sym (rest-locate id);
    distinct = distinct-cons.1;
  }

-- Adding an entry, where there is room and its identifier is new.
module _ (s : Store) (e : Entry) (v : Inv s) (free : s.size < length s.entries) where
  abbrev pushed : List Entry
  pushed = set s.entries (slot (cap s) s.start s.size) e

  pushed-Same : Same (cap s) pushed s.entries s.start s.start 0 0 s.size
  pushed-Same k l = (
    refl,
    get_elem?-set_ne s.entries (slot (cap s) s.start s.size) _ e
        (λ p. slot_injective (cap s) s.start (0 + k) s.size v.started (omega arith) free (sym p)),
  )

  pushed-last : get_elem? pushed (slot (cap s) s.start s.size) ≡ some e
  pushed-last = get_elem?-set_self s.entries _ e (slot-lt (cap s) s.start s.size v.room)

  pub contents-push : contents (push s e) ≡ contents s ++ e ∷ []
  unfolding contents push
  contents-push =
      let more : s.size + 1 ≡ suc s.size = omega arith in
      rw (more, length-set s.entries (slot (cap s) s.start s.size) e)
        (window_snoc (cap s) pushed s.start e 0 s.size s.size (omega arith) pushed-last
          ∙ ap (λ es. es ++ e ∷ [])
              (window-Same (cap s) pushed s.entries s.start s.start 0 0 s.size pushed-Same))

  pub push-indexed :
      (id : Text)
      → lookup e.id s.by_id ≡ none
      → lookup id (push s e).by_id
        ≡ locate (length (push s e).entries) (push s e).entries id s.start 0 (push s e).size
  unfolding push
  push-indexed id new =
      let more : s.size + 1 ≡ suc s.size = omega arith in
      rw (more, length-set s.entries (slot (cap s) s.start s.size) e)
        (ground (
          arith,
          lookup-insert e.id id (slot (cap s) s.start s.size) s.by_id,
          locate_snoc (cap s) pushed s.start e id 0 s.size s.size (omega arith) pushed-last,
          locate-Same (cap s) pushed s.entries s.start s.start id 0 0 s.size pushed-Same,
          v.indexed id,
          text_eq_iff e.id id,
          new,
        ))

pub find-append :
    (id : Text) (es : List Entry) (e : Entry)
    → find id es ≡ none
    → find id (es ++ e ∷ []) ≡ (if text_eq e.id id then some e else none)
unfolding find
find-append id [] e h = refl
find-append id (d ∷ es) e h = ground (arith, find-append id es e)

pub DistinctIds-append :
    (es : List Entry) (e : Entry)
    → DistinctIds es
    → find e.id es ≡ none
    → DistinctIds (es ++ e ∷ [])
unfolding find
DistinctIds-append [] e d h = (refl, tt)
DistinctIds-append (x ∷ es) e d h = (
  find-append x.id es e d.0 ∙ ground (arith, text_eq_iff e.id x.id, text_eq_iff x.id e.id),
  DistinctIds-append es e d.1 (ground arith),
)
