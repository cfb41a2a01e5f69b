-- ===== src/Server/Holds.antt =====
-- internal/server/holds.go: who holds a public host. The table route_holds is a map from hosts to
-- rows (`host` is its primary key); each SQL statement either takes effect as a whole or fails and
-- changes nothing, and which ones fail is an argument. Every method runs under holdMu, so it is one
-- step. Times are nanoseconds of the clock, given to each method that reads it; they do not reach
-- the bound of int64 (the year 2262).
pub mod Blocking
pub mod Generations
pub mod Grace
use routeup.Base.{
  Text, ltb, ◌==◌, if◌then◌else◌, Result, ok, err, ◌>>=◌, ◌>>◌, fail_if, text_eq, Map, lookup,
  insert, delete, ℕ, ◌+◌, Bool, true, false, not, ◌&&◌, ◌||◌, Option, none, some, [], ◌∷◌,
}

abbrev pub grace_window : ℕ
grace_window = 30000000000

-- type HoldKind
pub data HoldKind : Type 0 where
  by_token by_namespace : HoldKind

-- holdStateActive, holdStateReleased
pub data HoldState : Type 0 where
  active released : HoldState

-- type HoldRequest
pub record HoldRequest : Type 0 where
  pub host : Text
  pub kind : HoldKind
  pub token_id : Text

-- type RouteHold
pub record RouteHold : Type 0 where
  pub host : Text
  pub token_id : Text
  pub kind : HoldKind
  pub state : HoldState
  pub ephemeral : Bool
  pub held_at : ℕ
  pub grace_until : Option ℕ

abbrev pub Table : Type 0
Table = Map RouteHold

pub data HoldError : Type 0 where
  route_conflict read_failed write_failed : HoldError

abbrev pub is_namespace : HoldKind → Bool
is_namespace by_namespace = true
is_namespace by_token = false

abbrev pub is_active : HoldState → Bool
is_active active = true
is_active released = false

-- Whether a request comes from the token that has a hold.
abbrev pub same_token : RouteHold → HoldRequest → Bool
same_token existing req =
    not (is_namespace req.kind)
    && (not (text_eq req.token_id []) && text_eq existing.token_id req.token_id)

abbrev pub in_grace : RouteHold → ℕ → Bool
in_grace h now = elim h.grace_until [ none ↦ false | some until ↦ ltb now until ]

-- func holdBlocked
unfoldable pub hold_blocked : RouteHold → HoldRequest → ℕ → Bool
hold_blocked existing req now =
    if is_namespace existing.kind
    then is_active existing.state
    else if is_active existing.state
    then not (same_token existing req)
    else if in_grace existing now
    then not (same_token existing req)
    else false

-- Which statements of a method fail.
pub record Faults : Type 0 where
  pub reading : Bool
  pub writing : Bool

-- func (s *Store) GetHold
unfoldable pub get_hold : Faults → Table → Text → Result HoldError (Option RouteHold)
get_hold f db host = if f.reading then err read_failed else ok (lookup host db)

-- func (s *Store) upsertHold
unfoldable pub upsert_hold : Faults → Table → RouteHold → Result HoldError Table
upsert_hold f db h = if f.writing then err write_failed else ok (insert h.host h db)

-- func (s *Store) deleteHold
unfoldable pub delete_hold : Faults → Table → Text → Result HoldError Table
delete_hold f db host = if f.writing then err write_failed else ok (delete host db)

-- HoldRoute's test for a hold that blocks the request.
abbrev pub blocked_by : Option RouteHold → HoldRequest → ℕ → Bool
blocked_by none req now = false
blocked_by (some h) req now = hold_blocked h req now

-- HoldRoute's time of the new hold, which is later than that of the old one.
abbrev pub generation_after : Option RouteHold → ℕ → ℕ
generation_after none now = now
generation_after (some h) now = if ltb h.held_at now then now else h.held_at + 1

-- func (s *Store) HoldRoute
unfoldable pub hold_route : Faults → ℕ → Table → HoldRequest → Result HoldError (Table × RouteHold)
unfolding get_hold upsert_hold
hold_route f now db req = do
  existing ← get_hold f db req.host
  fail_if (blocked_by existing req now) route_conflict
  let h : RouteHold = record {
    host = req.host;
    token_id = req.token_id;
    kind = req.kind;
    state = active;
    ephemeral = is_namespace req.kind;
    held_at = generation_after existing now;
    grace_until = none;
  }
  db' ← upsert_hold f db h
  ok (db', h)

abbrev pub released_until : ℕ → RouteHold → RouteHold
released_until t h = record h { state = released; grace_until = some t }

-- releaseLocked, for the hold that it found.
unfoldable pub release_found :
    Faults → ℕ → Table → Text → ℕ → Option RouteHold → Result HoldError Table
unfolding delete_hold
release_found f now db host generation none = ok db
release_found f now db host generation (some existing) =
    if not (generation == 0) && not (existing.held_at == generation)
    then ok db
    else if existing.ephemeral || is_namespace existing.kind
    then delete_hold f db host
    else if f.writing
    then err write_failed
    else ok (insert host (released_until (now + grace_window) existing) db)

-- func (s *Store) releaseLocked; Release is its call with generation 0, and ReleaseGeneration the
-- call with a lease's generation
unfoldable pub release_locked : Faults → ℕ → Table → Text → ℕ → Result HoldError Table
unfolding get_hold release_found
release_locked f now db host generation = do
  existing ← get_hold f db host
  release_found f now db host generation existing

-- A statement that deletes the rows which meet a condition, and counts them.
unfoldable pub delete_where : (RouteHold → Bool) → Table → Table × ℕ
delete_where p [] = ([], 0)
delete_where p ((k, h) ∷ db) =
    let (rest, n) = delete_where p db in if p h then (rest, n + 1) else ((k, h) ∷ rest, n)

-- A statement that changes the rows which meet a condition, and counts them.
unfoldable pub update_where : (RouteHold → Bool) → (RouteHold → RouteHold) → Table → Table × ℕ
update_where p g [] = ([], 0)
update_where p g ((k, h) ∷ db) =
    let (rest, n) = update_where p g db in
    if p h then ((k, g h) ∷ rest, n + 1) else ((k, h) ∷ rest, n)

-- The condition of ReapExpiredHolds.
abbrev pub is_expired : ℕ → RouteHold → Bool
is_expired now h =
    not (is_active h.state) && elim h.grace_until [ none ↦ false | some until ↦ ltb until now ]

-- func (s *Store) ReapExpiredHolds
unfoldable pub reap_expired_holds : Faults → ℕ → Table → Result HoldError (Table × ℕ)
reap_expired_holds f now db =
    if f.writing then err write_failed else ok (delete_where (is_expired now) db)

-- func (s *Store) PurgeEphemeralHolds
unfoldable pub purge_ephemeral_holds : Faults → Table → Result HoldError (Table × ℕ)
purge_ephemeral_holds f db =
    if f.writing then err write_failed else ok (delete_where (λ h. h.ephemeral) db)

-- The condition of RecoverActiveTokenHolds.
abbrev pub is_stale : RouteHold → Bool
is_stale h = is_active h.state && (not (is_namespace h.kind) && not h.ephemeral)

-- func (s *Store) RecoverActiveTokenHolds
unfoldable pub recover_active_token_holds : Faults → ℕ → Table → Result HoldError (Table × ℕ)
recover_active_token_holds f now db =
    if f.writing
    then err write_failed
    else ok (update_where is_stale (released_until (now + grace_window)) db)
