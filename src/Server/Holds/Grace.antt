-- ===== src/Server/Holds/Grace.antt =====
-- The grace window of a released token hold, and the statements over the whole table.
use mathlib.Core.Path.{subst₂}
use routeup.Base.{
  Text, ltb, if◌then◌else◌, Option-cases, ok, text_eq, text_eq_iff, text_eq_refl, lookup,
  lookup-insert, lookup-delete, Lacks, IsMap, lookup_of_Lacks, ℕ, ◌+◌, ◌≤◌, ◌≡◌, refl, ◌⊎◌, inl,
  inr, Bool, false, not, Option, none, some, [], ◌∷◌, arith, is_some, OnSome, true, ap, ◌∙◌,
}
use routeup.Server.Holds.{
  Table, grace_window, by_token, by_namespace, HoldRequest, RouteHold, same_token, hold_blocked,
  Faults, blocked_by, released_until, release_found, release_locked, delete_where, is_expired,
  reap_expired_holds, active, released, is_namespace, update_where, purge_ephemeral_holds, is_stale,
  recover_active_token_holds,
}

-- A token hold, not ephemeral, released with generation 0 or its own, stays reserved for its token: in the table that the release leaves, the same
-- token may hold the host at once, and anyone else from the end of the grace window on.
pub release_locked-grace :
    (f : Faults) (now : ℕ) (db db' : Table) (host : Text) (generation : ℕ) (h : RouteHold)
    → lookup host db ≡ some h
    → h.kind ≡ by_token
    → h.ephemeral ≡ false
    → (generation ≡ 0) ⊎ (generation ≡ h.held_at)
    → release_locked f now db host generation ≡ ok db'
    → (req : HoldRequest) (t : ℕ)
    → blocked_by (lookup host db') req t
      ≡ (if ltb t (now + grace_window) then not (same_token h req) else false)
unfolding release_locked release_found hold_blocked
release_locked-grace f now db db' host generation h found kind lasting current e req t =
    ground
      (arith, lookup-insert host host (released_until (now + grace_window) h) db, text_eq_refl host)

-- Releasing a namespace hold frees its host at once.
pub release_locked-namespace :
    (f : Faults) (now : ℕ) (db db' : Table) (host : Text) (generation : ℕ) (h : RouteHold)
    → lookup host db ≡ some h
    → h.kind ≡ by_namespace
    → (generation ≡ 0) ⊎ (generation ≡ h.held_at)
    → release_locked f now db host generation ≡ ok db'
    → (j : Text) → lookup j db' ≡ (if text_eq host j then none else lookup j db)
unfolding release_locked release_found
release_locked-namespace f now db db' host generation h found kind current e j =
    ground (arith, lookup-delete host j db)

Lacks-delete_where :
    (p : RouteHold → Bool) (k : Text) (db : Table) → Lacks k db → Lacks k (delete_where p db).0
unfolding delete_where
Lacks-delete_where p k [] h = tt
Lacks-delete_where p k ((j, v) ∷ db) h = ground (arith, Lacks-delete_where p k db h.1)

abbrev pub survivor : (RouteHold → Bool) → Option RouteHold → Option RouteHold
survivor p none = none
survivor p (some h) = if p h then none else some h

pub lookup-delete_where :
    (p : RouteHold → Bool) (k : Text) (db : Table)
    → IsMap db
    → lookup k (delete_where p db).0 ≡ survivor p (lookup k db)
unfolding delete_where lookup
lookup-delete_where p k [] m = refl
lookup-delete_where p k ((j, v) ∷ db) m = ground (
  arith,
  lookup-delete_where p k db m.1,
  text_eq_iff j k,
  lookup_of_Lacks j (delete_where p db).0 (Lacks-delete_where p j db m.0),
)

-- Reaping a table that has each host once is not seen by any later request: whoever was blocked is, and whoever was not is not.
pub reap_transparent :
    (f : Faults) (now : ℕ) (db db' : Table) (n : ℕ)
    → IsMap db
    → reap_expired_holds f now db ≡ ok (db', n)
    → (host : Text) (req : HoldRequest) (t : ℕ) → now ≤ t
    → blocked_by (lookup host db') req t ≡ blocked_by (lookup host db) req t
unfolding reap_expired_holds hold_blocked
reap_transparent f now db db' n m e host req t le =
    let same : db' ≡ (delete_where (is_expired now) db).0 = ground arith in
    rw (same, lookup-delete_where (is_expired now) host db m)
      (elim (Option-cases (lookup host db)) [
        | inl g ↦ rw g refl
        | inr (h, g) ↦ rw g (ground arith)
      ])

abbrev pub changed :
    (RouteHold → Bool) → (RouteHold → RouteHold) → Option RouteHold → Option RouteHold
changed p g none = none
changed p g (some h) = some (if p h then g h else h)

pub lookup-update_where :
    (p : RouteHold → Bool) (g : RouteHold → RouteHold) (k : Text) (db : Table)
    → lookup k (update_where p g db).0 ≡ changed p g (lookup k db)
unfolding update_where lookup
lookup-update_where p g k [] = refl
lookup-update_where p g k ((j, v) ∷ db) = ground (arith, lookup-update_where p g k db)

-- The rows that the methods write: a namespace hold is ephemeral and active, a token hold is not
-- ephemeral, and a released row has the end of its grace.
pub record IsRow (h : RouteHold) : Type 0 where
  pub ephemeral : h.ephemeral ≡ is_namespace h.kind
  pub namespace_active : h.kind ≡ by_namespace → h.state ≡ active
  pub has_grace : h.state ≡ released → is_some h.grace_until ≡ true

-- A row after both statements of the startup.
abbrev pub recovered : ℕ → Option RouteHold → Option RouteHold
recovered now o =
    changed is_stale (released_until (now + grace_window)) (survivor (λ h. h.ephemeral) o)

recovered-released :
    (now : ℕ) (o : Option RouteHold)
    → OnSome IsRow o
    → OnSome (λ h. h.state ≡ released) (recovered now o)
recovered-released now none r = tt
recovered-released now (some h) r = ground arith

-- At startup, PurgeEphemeralHolds and then RecoverActiveTokenHolds, on a table that has each host once
-- and rows as the methods write them: no hold is active afterwards, and
-- each token hold that was active waits out a grace window for its own token.
pub startup_recovers :
    (f : Faults) (now : ℕ) (db purged db' : Table) (n m : ℕ)
    → IsMap db
    → ((host : Text) → OnSome IsRow (lookup host db))
    → purge_ephemeral_holds f db ≡ ok (purged, n)
    → recover_active_token_holds f now purged ≡ ok (db', m)
    → (host : Text)
    → lookup host db'
        ≡ changed is_stale
            (released_until (now + grace_window))
            (survivor (λ h. h.ephemeral) (lookup host db))
      × OnSome (λ h. h.state ≡ released) (lookup host db')
unfolding purge_ephemeral_holds recover_active_token_holds
startup_recovers f now db purged db' n m unique rows e r host =
    let table : lookup host db' ≡ recovered now (lookup host db) =
      subst₂ (λ a b. lookup host a ≡ changed is_stale (released_until (now + grace_window)) b)
        (ground arith)
        (ap (lookup host) purge ∙ lookup-delete_where (λ h. h.ephemeral) host db unique)
        (lookup-update_where is_stale (released_until (now + grace_window)) host purged) in
    (table, rw table (recovered-released now (lookup host db) (rows host)))
  where
    purge : purged ≡ (delete_where (λ h. h.ephemeral) db).0
    purge = ground arith
