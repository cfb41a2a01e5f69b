-- ===== src/Logs/Store/Append.antt =====
-- Append keeps the ring's invariant and adds one entry to its contents; listing reads the contents.
use routeup.Base.{
  Text, ◌==◌, Bool-cases, length, drop, length-set, lookup, ℕ, ◌-◌, ◌<◌, ◌≡◌, refl, inl, inr, none,
  List, [], ◌∷◌, ◌++◌, arith, length-append, ok, text_eq, lookup-delete, suc, sym, ap, ◌∙◌, false,
  Option, some, Result-cases, text_eq_refl,
}
use mathlib.Core.Path.{subst₂}
use routeup.Logs.Entry.{Entry, zero_entry}
use routeup.Logs.Store.{
  Store, push, make_room, metadata_entry, id_at, remove_oldest, complete_entry, append, get,
}
use routeup.Logs.Store.Ring.{length-window, find}
use routeup.Logs.Store.Refinement.{
  contents, Inv, absent-contents, contents-push, push-indexed, DistinctIds-append,
  contents-remove_oldest, remove_oldest-Inv, get-contents, find-append,
}

-- The last entries of a list, at most so many.
abbrev pub newest : ℕ → List Entry → List Entry
newest n es = drop (length es - n) es

push-Inv :
    (s : Store) (e : Entry)
    → Inv s
    → s.size < length s.entries
    → lookup e.id s.by_id ≡ none
    → Inv (push s e)
unfolding push
push-Inv s e v free new = record {
  room = rw length-set v.room;
  started = rw length-set v.started;
  bounded = rw length-set (omega arith);
  indexed = λ id. push-indexed s e v free id new;
  distinct =
      rw (contents-push s e v free)
        (DistinctIds-append (contents s) e v.distinct (absent-contents s e.id v new));
}

pub length-contents : (s : Store) → Inv s → length (contents s) ≡ s.size
unfolding contents
length-contents s v = length-window (length s.entries) s.entries s.start 0 s.size v.room refl

-- What Append's making room does to an invariant store.
pub record Made (s t : Store) : Type 0 where
  pub inv : Inv t
  pub free : t.size < length t.entries
  pub cap : length t.entries ≡ length s.entries
  pub kept : (e : Entry) → contents t ++ e ∷ [] ≡ newest (length s.entries) (contents s ++ e ∷ [])
  pub forgets : (id : Text) → lookup id s.by_id ≡ none → lookup id t.by_id ≡ none

module _ (s : Store) (v : Inv s) (full : s.size ≡ length s.entries) where
  one_less : s.size ≡ suc (s.size - 1)
  one_less = omega (arith, v.room)

  over : (e : Entry) → length (contents s ++ e ∷ []) - length s.entries ≡ 1
  over e = omega (arith, length-append {0} (contents s) (e ∷ []), length-contents s v)

  remove_oldest-Made : Made s (remove_oldest s)
  remove_oldest-Made = record {
    inv = remove_oldest-Inv s (s.size - 1) v one_less;
    free = unfold remove_oldest in rw length-set (omega (arith, v.room));
    cap = unfold remove_oldest in length-set s.entries s.start zero_entry;
    kept = λ e. sym (
        ap (λ k. drop k (contents s ++ e ∷ [])) (over e)
        ∙ ap (λ es. drop 1 (es ++ e ∷ [])) (contents-remove_oldest s (s.size - 1) v one_less));
    forgets = λ id h.
        unfold remove_oldest in
        ground (arith, lookup-delete (id_at s.entries s.start) id s.by_id, h);
  }

same-Made : (s : Store) → Inv s → s.size < length s.entries → Made s s
same-Made s v free = record {
  inv = v;
  free = free;
  cap = refl;
  kept = λ e.
      let none_over : length (contents s ++ e ∷ []) - length s.entries ≡ 0 =
        omega (arith, length-append {0} (contents s) (e ∷ []), length-contents s v) in
      sym (ap (λ k. drop k (contents s ++ e ∷ [])) none_over);
  forgets = λ id h. h;
}

make_room-Made : (s : Store) → Inv s → Made s (make_room s)
unfolding make_room
make_room-Made s v = elim (Bool-cases (s.size == length s.entries)) [
  | inl full ↦ rw full (remove_oldest-Made s v (ground arith))
  | inr free ↦ rw free (same-Made s v (ground (arith, v.bounded)))
]

-- What a successful Append does.
pub record Appended (s : Store) (e : Entry) (t : Store) (out : Entry) : Type 0 where
  pub stored : Entry
  pub inv : Inv t
  pub cap : length t.entries ≡ length s.entries
  pub newer : contents t ≡ newest (length s.entries) (contents s ++ stored ∷ [])
  pub metadata : out ≡ metadata_entry stored
  pub given : text_eq e.id [] ≡ false → stored.id ≡ e.id
  pub fresh : lookup stored.id s.by_id ≡ none
  pub found : get t stored.id ≡ some stored

complete_entry-fresh :
    (now : ℕ) (draw : ℕ → Option Text) (s : Store) (e stored : Entry)
    → complete_entry now draw s e ≡ ok stored
    → (lookup stored.id s.by_id ≡ none) × (text_eq e.id [] ≡ false → stored.id ≡ e.id)
unfolding complete_entry
complete_entry-fresh now draw s e stored h = ground arith

length-push : (s : Store) (e : Entry) → length (push s e).entries ≡ length s.entries
unfolding push
length-push s e = length-set s.entries _ e

-- The store after Append has put an entry in.
pub pushed-newest :
    (s : Store) (stored : Entry)
    → Inv s
    → lookup stored.id s.by_id ≡ none
    → Inv (push (make_room s) stored)
      × (contents (push (make_room s) stored)
          ≡ newest (length s.entries) (contents s ++ stored ∷ []))
pushed-newest s stored v new =
    let m = make_room-Made s v in
    (
      push-Inv (make_room s) stored m.inv m.free (m.forgets stored.id new),
      contents-push (make_room s) stored m.inv m.free ∙ m.kept stored,
    )

pushed-Appended :
    (s : Store) (e stored : Entry)
    → Inv s
    → lookup stored.id s.by_id ≡ none
    → (text_eq e.id [] ≡ false → stored.id ≡ e.id)
    → Appended s e (push (make_room s) stored) (metadata_entry stored)
pushed-Appended s e stored v new given =
    let m = make_room-Made s v in
    let (inv', newer) = pushed-newest s stored v new in
    record {
      stored = stored;
      inv = inv';
      cap = length-push (make_room s) stored ∙ m.cap;
      newer = newer;
      metadata = refl;
      given = given;
      fresh = new;
      found =
          get-contents (push (make_room s) stored) stored.id inv'
          ∙ ap (find stored.id) (contents-push (make_room s) stored m.inv m.free)
          ∙ find-append stored.id (contents (make_room s)) stored
              (absent-contents (make_room s) stored.id m.inv (m.forgets stored.id new))
          ∙ rw (text_eq_refl stored.id);
    }

-- A successful Append to a store with the invariant keeps it and the capacity; the contents are then the newest entries
-- of the old contents and the one stored, at most as many as the capacity; the reply is the stored
-- entry without its capture; the identifier was not in use, is the one given unless that was blank,
-- and Get now finds the entry under it.
pub append-Appended :
    (now : ℕ) (draw : ℕ → Option Text) (s t : Store) (e out : Entry)
    → Inv s
    → append now draw s e ≡ ok (t, out)
    → Appended s e t out
unfolding append
append-Appended now draw s t e out v h = elim (Result-cases (complete_entry now draw s e)) [
  | inr (x, q) ↦ absurd (ground arith)
  | inl (stored, q) ↦
      let (new, given) = complete_entry-fresh now draw s e stored q in
      subst₂ (Appended s e) (ground arith) (ground arith) (pushed-Appended s e stored v new given)
]
