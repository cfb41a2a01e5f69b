-- ===== src/Tests/Holds.antt =====
-- Holds of public hosts.
use routeup.Base.{
  Text, ltb, if◌then◌else◌, Bool-cases, OnSome, ok, err, codes, text_eq, lookup, ℕ, ◌+◌, ◌≤◌, ◌≡◌,
  refl, ◌≢◌, ◌↔◌, inl, inr, true, false, not, none, some, [], ◌∷◌, arith, insert,
}
use routeup.Server.Holds.{
  HoldRequest, RouteHold, Table, Faults, hold_route, grace_window, by_token, active, released,
  route_conflict, same_token, hold_blocked, blocked_by, released_until, release_locked,
  reap_expired_holds, purge_ephemeral_holds, is_stale, recover_active_token_holds, delete_where,
  update_where,
}
use routeup.Server.Holds.Blocking.{IsLive, IsOwner, hold_blocked_iff, Held, hold_route-Held}
use routeup.Server.Holds.Generations.{release_superseded}
use routeup.Server.Holds.Grace.{IsRow}

abbrev fine : Faults
fine = record { reading = false; writing = false }

abbrev blog : Text
blog = codes "blog.alice.routeup.dev"

abbrev by_alice : HoldRequest
by_alice = record { host = blog; kind = by_token; token_id = codes "alice" }

abbrev by_bob : HoldRequest
by_bob = record { host = blog; kind = by_token; token_id = codes "bob" }

abbrev held_at : ℕ → RouteHold
held_at t = record {
  host = blog;
  token_id = codes "alice";
  kind = by_token;
  state = active;
  ephemeral = false;
  held_at = t;
  grace_until = none;
}

abbrev row : ℕ → Table
row t = (blog, held_at t) ∷ []

hold_blocked_iff_example :
    (hold_blocked (held_at 5) by_bob 9 ≡ true)
    ↔ (IsLive (held_at 5) 9 × ¬ IsOwner (held_at 5) by_bob)
hold_blocked_iff_example = hold_blocked_iff (held_at 5) by_bob 9

held_first : hold_route fine 5 [] by_alice ≡ ok (row 5, held_at 5)
unfolding hold_route lookup routeup.Base.insert
held_first = refl

held_again : hold_route fine 6 (row 5) by_alice ≡ ok (row 6, held_at 6)
unfolding hold_route lookup text_eq hold_blocked routeup.Base.insert
held_again = refl

hold_route-Held_example : Held 6 (row 5) by_alice (row 6) (held_at 6)
hold_route-Held_example = hold_route-Held fine 6 (row 5) (row 6) by_alice (held_at 6) held_again

found_row : (t : ℕ) → lookup blog (row t) ≡ some (held_at t)
unfolding lookup text_eq
found_row t = refl

still_there : lookup blog (row 5) ≢ none
unfolding lookup
still_there = ground (arith, found_row 5)

not_earlier : OnSome (λ h. 5 ≤ h.held_at) (lookup blog (row 5))
unfolding lookup text_eq
not_earlier = omega arith

late_release : release_locked fine 9 (row 6) blog 5 ≡ ok (row 6)
unfolding release_locked lookup text_eq
late_release = refl

release_superseded_example : row 6 ≡ row 6
release_superseded_example =
    release_superseded fine fine fine 5 6 9 [] (row 5) (row 5) (row 6) (row 6) by_alice by_alice
      (held_at 5) (held_at 6) (omega arith) held_first not_earlier still_there refl held_again
      late_release

abbrev freed : Table
freed = (blog, released_until (9 + grace_window) (held_at 5)) ∷ []

released_row : release_locked fine 9 (row 5) blog 5 ≡ ok freed
unfolding release_locked lookup text_eq routeup.Base.insert
released_row = refl

reaped : reap_expired_holds fine 40000000000 freed ≡ ok ([], 1)
unfolding reap_expired_holds routeup.Server.Holds.delete_where
reaped = refl

row-IsRow : (host : Text) → OnSome IsRow (lookup host (row 5))
unfolding lookup
row-IsRow host = elim (Bool-cases (text_eq blog host)) [
  | inl e ↦ rw e (record {
    ephemeral = refl;
    namespace_active = λ h. ground (arith, h);
    has_grace = λ h. ground (arith, h);
  })
  | inr e ↦ rw e tt
]

purged : purge_ephemeral_holds fine (row 5) ≡ ok (row 5, 0)
unfolding purge_ephemeral_holds routeup.Server.Holds.delete_where
purged = refl

recovered_row : recover_active_token_holds fine 9 (row 5) ≡ ok (freed, 1)
unfolding recover_active_token_holds routeup.Server.Holds.update_where
recovered_row = refl
