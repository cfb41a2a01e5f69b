-- ===== src/Server/Holds/Generations.antt =====
-- A lease that a later hold has replaced cannot end that hold.
use routeup.Base.{
  Text, OnSome, ok, lookup, ℕ, ◌≤◌, ◌<◌, ◌≡◌, ◌≢◌, none, some, arith, text_eq_refl, refl, subst,
  Option,
}
use routeup.Server.Holds.{
  Table, HoldRequest, RouteHold, Faults, hold_route, release_found, release_locked,
}
use routeup.Server.Holds.Blocking.{hold_route-Held}

-- Releasing by a generation that is not the current one changes nothing.
pub release_locked-other :
    (f : Faults) (now : ℕ) (db db' : Table) (host : Text) (generation : ℕ) (h : RouteHold)
    → lookup host db ≡ some h
    → generation ≢ 0
    → h.held_at ≢ generation
    → release_locked f now db host generation ≡ ok db'
    → db' ≡ db
unfolding release_locked release_found
release_locked-other f now db db' host generation h found positive other e = ground arith

later-ne :
    (first second : RouteHold) (o : Option RouteHold)
    → o ≢ none
    → OnSome (λ h. first.held_at ≤ h.held_at) o
    → OnSome (λ h. h.held_at < second.held_at) o
    → second.held_at ≢ first.held_at
later-ne first second none n p q e = n refl
later-ne first second (some h) n p q e = omega arith

-- Two successful holds of one host, the first at a time after 0, with any table between them that
-- still has a row of the first hold's generation or a later one: releasing the first lease then, if
-- it reports no error, leaves the table as it is.
pub release_superseded :
    (f g k : Faults) (now later last : ℕ) (db₀ db₁ db₂ db₃ db₄ : Table) (req again : HoldRequest)
    (first second : RouteHold)
    → 0 < now
    → hold_route f now db₀ req ≡ ok (db₁, first)
    → OnSome (λ h. first.held_at ≤ h.held_at) (lookup req.host db₂)
    → lookup req.host db₂ ≢ none
    → again.host ≡ req.host
    → hold_route g later db₂ again ≡ ok (db₃, second)
    → release_locked k last db₃ req.host first.held_at ≡ ok db₄
    → db₄ ≡ db₃
release_superseded f g k now later last db₀ db₁ db₂ db₃ db₄ req again first second positive one kept
      there same two done =
    let a = hold_route-Held f now db₀ db₁ req first one in
    let b = hold_route-Held g later db₂ db₃ again second two in
    release_locked-other k last db₃ db₄ req.host first.held_at second
      (ground (arith, b.table req.host, same, text_eq_refl req.host)) (omega (arith, a.current))
      (later-ne first second (lookup req.host db₂) there kept
        (subst (λ t. OnSome (λ old. old.held_at < second.held_at) (lookup t db₂)) same b.later))
      done
