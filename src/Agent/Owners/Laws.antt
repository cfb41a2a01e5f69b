-- ===== src/Agent/Owners/Laws.antt =====
-- Which control a route has.
use mathlib.Core.Option
use routeup.Base.{
  Text, ◌==◌, if◌then◌else◌, ==_iff, Bool-cases, get_elem?, ℤ, eq_ℤ, lookup, ℕ, zero, suc, ◌≡◌,
  refl, ◌≢◌, inl, inr, true, ◌&&◌, none, some, List, [], ◌∷◌, arith,
}
use routeup.Agent.Owners.{Control, Controls, detach, change_control, stop}

abbrev pub stopped : Control → Control
stopped k = record k { stop = true }

change_control-at :
    (i j : ℕ) (f : Control → Control) (cs : List Control)
    → get_elem? (change_control (some i) f cs) j
      ≡ (if i == j then Option.map f (get_elem? cs j) else get_elem? cs j)
unfolding change_control
change_control-at i j f [] = ground arith
change_control-at zero zero f (c ∷ cs) = refl
change_control-at zero (suc j) f (c ∷ cs) = ground arith
change_control-at (suc i) zero f (c ∷ cs) = ground arith
change_control-at (suc i) (suc j) f (c ∷ cs) = ground (arith, change_control-at i j f cs)

-- The end of an older connection leaves the route to a newer one: a detach by any number but that of
-- the control that the route has changes nothing.
pub detach-other :
    (route_name : Text) (id other : ℕ) (c : Controls)
    → lookup route_name c.by_route ≡ some id
    → other ≢ id
    → detach route_name other c ≡ c
unfolding detach
detach-other route_name id other c e n = ground (arith, e, ==_iff id other, n)

-- A stop of a route that has a control: it succeeds just where the control's owner is the one named,
-- and then closes the stop channel of this control, and of no other.
pub stop-owner :
    (route_name : Text) (pid : ℤ) (id : ℕ) (k : Control) (c : Controls)
    → lookup route_name c.by_route ≡ some id
    → get_elem? c.made id ≡ some k
    → ((stop route_name pid c).1 ≡ (if eq_ℤ k.owner_pid pid then some id else none))
      × ((j : ℕ)
          → get_elem? (stop route_name pid c).0.made j ≡ (
              if eq_ℤ k.owner_pid pid && (id == j)
              then Option.map stopped (get_elem? c.made j)
              else get_elem? c.made j))
unfolding stop
stop-owner route_name pid id k c e q = elim (Bool-cases (eq_ℤ k.owner_pid pid)) [
  | inl b ↦ rw (e, q, b) (refl, λ j. change_control-at id j stopped c.made)
  | inr b ↦ rw (e, q, b) (refl, λ j. refl)
]
