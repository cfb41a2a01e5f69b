-- ===== src/Logs/Store.antt =====
-- internal/logs/store.go: the ring of the agent's recent requests. Each method runs under one lock,
-- so it is one step. A channel of changes is known by its number: Append closes the current one and
-- opens the next. The random identifiers that are drawn are an argument.
pub mod Ring
pub mod Refinement
pub mod Append
pub mod Listing
pub mod Runs
use routeup.Base.{
  Text, ltb, ◌==◌, if◌then◌else◌, is_some, length, get_elem?, set, drop, replicate, ℤ, pos,
  pos_part, ltb_ℤ, eq_ℤ, Result, ok, err, ◌>>=◌, ◌>>◌, fail_if, text_eq, Map, lookup, insert,
  delete, ℕ, zero, suc, ◌+◌, ◌-◌, ◌%◌, Bool, true, false, not, ◌&&◌, Option, none, some, List, [],
  ◌∷◌,
}
use routeup.Strings.{Unicode, equal_fold}
use routeup.Logs.Capture.{within_limit}
use routeup.Logs.Entry.{Entry, valid_source, zero_entry}

abbrev pub log_capacity : ℕ
log_capacity = 1024

-- type Store
pub record Store : Type 0 where
  pub entries : List Entry
  pub start : ℕ
  pub size : ℕ
  pub by_id : Map ℕ
  pub changes : ℕ

pub data LogError : Type 0 where
  invalid_entry duplicate_id random_failed : LogError

-- type ListOptions
pub record ListOptions : Type 0 where
  pub route_name : Text
  pub source : Text
  pub limit : ℤ
  pub since : ℕ
  pub method : Text
  pub status : ℤ

-- func NewStore
unfoldable pub new_store : Store
new_store = record {
  entries = replicate log_capacity zero_entry;
  start = 0;
  size = 0;
  by_id = [];
  changes = 0;
}

-- func metadataEntry
abbrev pub metadata_entry : Entry → Entry
metadata_entry e = record e { capture = none }

-- The loop of generateIDLocked: `draw n` is what newRequestID returns at attempt n.
unfoldable pub generate_from : ℕ → (ℕ → Option Text) → ℕ → Map ℕ → Result LogError Text
generate_from zero draw n ids = err duplicate_id
generate_from (suc attempts) draw n ids = elim (draw n) [
  | none ↦ err random_failed
  | some id ↦ if is_some (lookup id ids) then generate_from attempts draw (n + 1) ids else ok id
]

-- func (store *Store) generateIDLocked
unfoldable pub generate_id : (ℕ → Option Text) → Map ℕ → Result LogError Text
unfolding generate_from
generate_id draw ids = generate_from 4 draw 0 ids

abbrev pub id_at : List Entry → ℕ → Text
id_at es i = elim (get_elem? es i) [ none ↦ [] | some e ↦ e.id ]

-- func (store *Store) removeOldestLocked
unfoldable pub remove_oldest : Store → Store
remove_oldest s = record s {
  by_id = delete (id_at s.entries s.start) s.by_id;
  entries = set s.entries s.start zero_entry;
  start = (s.start + 1) % length s.entries;
  size = s.size - 1;
}

-- The last statements of Append.
unfoldable pub push : Store → Entry → Store
push s e =
    let index = (s.start + s.size) % length s.entries in
    record s {
      entries = set s.entries index e;
      by_id = insert e.id index s.by_id;
      size = s.size + 1;
      changes = s.changes + 1;
    }

-- Append's room for one more entry.
unfoldable pub make_room : Store → Store
make_room s = if s.size == length s.entries then remove_oldest s else s

-- The entry with its time, identifier and mark, as Append stores it.
unfoldable pub complete_entry : ℕ → (ℕ → Option Text) → Store → Entry → Result LogError Entry
complete_entry now draw s e = do
  fail_if (not (valid_source e.source)) invalid_entry
  id ← if text_eq e.id [] then generate_id draw s.by_id else ok e.id
  fail_if (is_some (lookup id s.by_id)) duplicate_id
  fail_if (not (within_limit e.capture)) invalid_entry
  ok (record e {
    id = id;
    started_at = if e.started_at == 0 then now else e.started_at;
    captured = is_some e.capture;
  })

-- func (store *Store) Append; an error leaves the store as it was
unfoldable pub append : ℕ → (ℕ → Option Text) → Store → Entry → Result LogError (Store × Entry)
append now draw s e = do
  stored ← complete_entry now draw s e
  ok (push (make_room s) stored, metadata_entry stored)

-- func (opts ListOptions) matches
unfoldable pub matches : Unicode → ListOptions → Entry → Bool
matches u opts e =
    if not (text_eq opts.route_name []) && not (text_eq opts.route_name e.route_name)
    then false
    else if not (text_eq opts.source []) && not (text_eq opts.source e.source)
    then false
    else if not (opts.since == 0) && ltb e.started_at opts.since
    then false
    else if not (text_eq opts.method []) && not (equal_fold u opts.method e.method)
    then false
    else if not (eq_ℤ opts.status (pos 0)) && not (eq_ℤ opts.status e.status)
    then false
    else true

-- The loop of matchingEntriesLocked, from an offset on for a number of rounds.
unfoldable pub matching_from : Unicode → ListOptions → List Entry → ℕ → ℕ → ℕ → List Entry
matching_from u opts es start offset zero = []
matching_from u opts es start offset (suc n) =
    let rest = matching_from u opts es start (offset + 1) n in
    elim (get_elem? es ((start + offset) % length es)) [
      | none ↦ rest
      | some e ↦ if matches u opts e then metadata_entry e ∷ rest else rest
    ]

-- func (store *Store) listLocked, which List and ListAndWatch call
unfoldable pub list : Unicode → ListOptions → Store → List Entry
unfolding matching_from
list u opts s =
    let entries = matching_from u opts s.entries s.start 0 s.size in
    if ltb_ℤ (pos 0) opts.limit && ltb (pos_part opts.limit) (length entries)
    then drop (length entries - pos_part opts.limit) entries
    else entries

-- func (store *Store) ListAndWatch
unfoldable pub list_and_watch : Unicode → ListOptions → Store → List Entry × ℕ
unfolding list
list_and_watch u opts s = (list u opts s, s.changes)

-- func (store *Store) Get
unfoldable pub get : Store → Text → Option Entry
get s id = elim (lookup id s.by_id) [ none ↦ none | some i ↦ get_elem? s.entries i ]
