-- ===== src/Logs/Store/Runs.antt =====
-- Runs of Appends from the empty store.
use routeup.Base.{
  Text, length, lookup, ℕ, ◌≡◌, refl, List, [], ◌∷◌, arith, ok, ◌∙◌, Option, Result, err, ◌≤◌,
  length-replicate,
}
use routeup.Logs.Entry.{Entry, zero_entry}
use routeup.Logs.Store.{Store, append, log_capacity, LogError, new_store}
use routeup.Logs.Store.Ring.{window, locate}
use routeup.Logs.Store.Refinement.{contents, Inv}
use routeup.Logs.Store.Append.{append-Appended, length-contents}

-- A request to Append: the time, the identifiers drawn, the entry.
abbrev pub Call : Type 0
Call = ℕ × (ℕ → Option Text) × Entry

abbrev pub after : Store → Result LogError (Store × Entry) → Store
after s (ok (t, out)) = t
after s (err x) = s

-- A run of Appends from any state; one that fails changes nothing.
unfoldable pub run : Store → List Call → Store
run s [] = s
run s ((now, draw, e) ∷ cs) = run (after s (append now draw s e)) cs

pub new_store-Inv : Inv new_store
unfolding new_store contents window locate lookup
new_store-Inv = record {
  room = rw length-replicate (omega arith);
  started = rw length-replicate (omega arith);
  bounded = rw length-replicate (omega arith);
  indexed = λ id. refl;
  distinct = tt;
}

after-Inv :
    (now : ℕ) (draw : ℕ → Option Text) (s : Store) (e : Entry)
    → Inv s
    → let t = after s (append now draw s e) in Inv t × (length t.entries ≡ length s.entries)
after-Inv now draw s e v = go (append now draw s e) refl
  where
    go :
        (r : Result LogError (Store × Entry))
        → append now draw s e ≡ r
        → Inv (after s r) × (length (after s r).entries ≡ length s.entries)
    go (ok (t, out)) q = let a = append-Appended now draw s t e out v q in (a.inv, a.cap)
    go (err x) q = (v, refl)

run-Inv :
    (s : Store) (cs : List Call)
    → Inv s
    → Inv (run s cs) × (length (run s cs).entries ≡ length s.entries)
unfolding run
run-Inv s [] v = (v, refl)
run-Inv s ((now, draw, e) ∷ cs) v =
    let (i, c) = after-Inv now draw s e v in
    let (j, d) = run-Inv (after s (append now draw s e)) cs i in (j, d ∙ c)

capacity-new_store : length new_store.entries ≡ log_capacity
unfolding new_store
capacity-new_store = length-replicate log_capacity zero_entry

-- After any run of Appends from the empty store, the ring's invariant holds and at most 1,024
-- entries are retained.
pub run-new_store :
    (cs : List Call)
    → Inv (run new_store cs) × (length (contents (run new_store cs)) ≤ log_capacity)
run-new_store cs =
    let (v, c) = run-Inv new_store cs new_store-Inv in
    (v, omega (arith, length-contents (run new_store cs) v, v.bounded, c, capacity-new_store))
