-- ===== src/Tests/Requests.antt =====
-- The ring of recent requests and the capture of messages.
use routeup.Base.{
  Text, codes, ℕ, ◌≡◌, Option, none, [], ◌∷◌, length, pos, ok, text_eq, lookup, ◌≤◌, refl, true,
  false, List, ◌++◌, arith, insert, delete,
}
use routeup.Tests.{plain}
use routeup.Logs.Entry.{Entry, zero_entry, valid_source}
use routeup.Logs.Capture.{
  Headers, Chunk, reads, CapturedMessage, within_limit, new_message_capture, take_message,
}
use routeup.Logs.Capture.Prefix.{all_bytes}
use routeup.Logs.Store.{
  Store, append, log_capacity, ListOptions, new_store, list, remove_oldest, push, make_room,
  complete_entry,
}
use routeup.Logs.Store.Refinement.{contents, Inv}
use routeup.Logs.Store.Ring.{find, locate, window}
use routeup.Logs.Store.Listing.{list-contents, Chosen, Within}
use routeup.Logs.Store.Runs.{run-new_store, Call, run}
use routeup.Logs.Store.Append.{append-Appended, Appended}

-- A ring of one entry, and full.
abbrev hello : Entry
hello = record zero_entry { id = codes "one"; source = codes "local"; started_at = 7 }

abbrev world : Entry
world = record zero_entry { id = codes "two"; source = codes "public"; started_at = 8 }

abbrev full : Store
full = record {
  entries = hello ∷ [];
  start = 0;
  size = 1;
  by_id = (codes "one", 0) ∷ [];
  changes = 1;
}

abbrev turned : Store
turned = record {
  entries = world ∷ [];
  start = 0;
  size = 1;
  by_id = (codes "two", 0) ∷ [];
  changes = 2;
}

abbrev no_draws : ℕ → Option Text
no_draws n = none

full-Inv : Inv full
unfolding lookup locate contents window find
full-Inv = record {
  room = omega arith;
  started = omega arith;
  bounded = omega arith;
  indexed = λ id. refl;
  distinct = (refl, tt);
}

world_appended : append 9 no_draws full world ≡ ok (turned, world)
unfolding append routeup.Logs.Store.complete_entry valid_source text_eq lookup within_limit
    routeup.Logs.Store.push routeup.Logs.Store.make_room routeup.Base.insert
    routeup.Logs.Store.remove_oldest routeup.Base.delete
world_appended = refl

append-Appended_example : Appended full world turned world
append-Appended_example = append-Appended 9 no_draws full turned world world full-Inv world_appended

abbrev last_one : ListOptions
last_one = record {
  route_name = [];
  source = codes "local";
  limit = pos 1;
  since = 0;
  method = [];
  status = pos 0;
}

list-contents_example :
    (es : List Entry) × Chosen plain last_one (contents full) es
    × Within (pos 1) es (list plain last_one full)
list-contents_example = list-contents plain last_one full

abbrev two_calls : List Call
two_calls = (3, no_draws, hello) ∷ (4, no_draws, world) ∷ []

run-new_store_example :
    Inv (run new_store two_calls) × (length (contents (run new_store two_calls)) ≤ log_capacity)
run-new_store_example = run-new_store two_calls

abbrev some_headers : Headers
some_headers = (codes "Accept", codes "text/html" ∷ []) ∷ (codes "Cookie", codes "k=v" ∷ []) ∷ []

abbrev two_reads : List Chunk
two_reads =
    record { bytes = codes "hel"; eof = false } ∷ record { bytes = codes "lo"; eof = true } ∷ []

abbrev taken : CapturedMessage
taken =
    take_message
      (reads two_reads (new_message_capture plain some_headers false (codes "cookie" ∷ [])))

abbrev Prefixed : CapturedMessage → List Chunk → Type 0
Prefixed m rs =
    (lost : Text) × (all_bytes rs ≡ m.body ++ lost) × (m.complete ≡ true → m.body ≡ all_bytes rs)
