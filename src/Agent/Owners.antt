-- ===== src/Agent/Owners.antt =====
-- internal/agent/owners.go: the connections over which owners of routes are told to stop. A control is
-- known by its number in the list of all controls that attach has made, where Go keeps pointers; its
-- two channels are open or closed.
pub mod Laws
use routeup.Base.{
  Text, ◌==◌, if◌then◌else◌, length, get_elem?, ℤ, eq_ℤ, Map, lookup, insert, delete, ℕ, zero, suc,
  Bool, true, false, Option, none, some, List, [], ◌∷◌, ◌++◌,
}

-- type routeOwnerControl
pub record Control : Type 0 where
  pub owner_pid : ℤ
  pub stop : Bool
  pub ack : Bool

-- type routeOwnerControls
pub record Controls : Type 0 where
  pub by_route : Map ℕ
  pub made : List Control

-- func newRouteOwnerControls
unfoldable pub new_route_owner_controls : Controls
new_route_owner_controls = record { by_route = []; made = [] }

-- func (c *routeOwnerControls) attach
unfoldable pub attach : Text → ℤ → Controls → Controls × Option ℕ
attach route_name owner_pid c = elim (lookup route_name c.by_route) [
  | some other ↦ (c, none)
  | none ↦
      let id = length c.made in
      (
        record {
          by_route = insert route_name id c.by_route;
          made = c.made ++ record { owner_pid = owner_pid; stop = false; ack = false } ∷ [];
        },
        some id,
      )
]

abbrev pub is_control : ℕ → Option ℕ → Bool
is_control id none = false
is_control id (some other) = other == id

-- func (c *routeOwnerControls) detach
unfoldable pub detach : Text → ℕ → Controls → Controls
detach route_name id c =
    if is_control id (lookup route_name c.by_route)
    then record c { by_route = delete route_name c.by_route }
    else c

-- The control of a route, if its owner is the one named.
abbrev pub control_at : Controls → Option ℕ → Option Control
control_at c none = none
control_at c (some id) = get_elem? c.made id

abbrev pub owned_by : ℤ → Option Control → Bool
owned_by owner_pid none = false
owned_by owner_pid (some control) = eq_ℤ control.owner_pid owner_pid

unfoldable pub change_control : Option ℕ → (Control → Control) → List Control → List Control
change_control none f cs = cs
change_control (some i) f [] = []
change_control (some zero) f (c ∷ cs) = f c ∷ cs
change_control (some (suc i)) f (c ∷ cs) = c ∷ change_control (some i) f cs

-- func (c *routeOwnerControls) stop
unfoldable pub stop : Text → ℤ → Controls → Controls × Option ℕ
unfolding change_control
stop route_name owner_pid c =
    let id = lookup route_name c.by_route in
    if owned_by owner_pid (control_at c id)
    then (record c { made = change_control id (λ k. record k { stop = true }) c.made }, id)
    else (c, none)

-- func (c *routeOwnerControls) acknowledge
unfoldable pub acknowledge : Text → ℤ → Controls → Controls × Bool
unfolding change_control
acknowledge route_name owner_pid c =
    let id = lookup route_name c.by_route in
    if owned_by owner_pid (control_at c id)
    then (record c { made = change_control id (λ k. record k { ack = true }) c.made }, true)
    else (c, false)
