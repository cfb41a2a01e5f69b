-- ===== src/Server/Tunnels.antt =====
-- internal/tunnel/server.go: which session serves a public host. A tunnelRoute is known by the
-- number of its session, since each session makes one and they are compared by identity. The broker
-- is a state and its Release, a parameter. The call of Release, which follows the unlock, belongs to
-- the step: it ends only its own generation of the hold.
pub mod Laws
use routeup.Base.{
  Text, ◌==◌, if◌then◌else◌, Map, lookup, insert, delete, ℕ, Bool, false, not, Option, none, some,
  List, [], ◌∷◌,
}
use routeup.Server.Broker.{RouteLease}

-- The routes of type TunnelRegistry.
abbrev pub Routes : Type 0
Routes = Map ℕ

-- func (reg *TunnelRegistry) register
unfoldable pub register : Text → ℕ → Routes → Routes
register host session routes = insert host session routes

abbrev pub is_session : ℕ → Option ℕ → Bool
is_session session none = false
is_session session (some other) = other == session

module _ {B : Type 0} (broker_release : RouteLease → B → B) where
  -- type TunnelRegistry, with its broker's state
  pub record TunnelRegistry : Type 0 where
    pub routes : Routes
    pub broker : B

  -- func (reg *TunnelRegistry) release
  unfoldable pub release : RouteLease → ℕ → TunnelRegistry → TunnelRegistry
  release lease session reg =
      if not (is_session session (lookup lease.host reg.routes)) then reg else record {
        routes = delete lease.host reg.routes;
        broker = broker_release lease reg.broker;
      }

  -- What befalls a registry while sessions come and go: ServeConn registers a session that was
  -- granted a lease, and releases it when the session ends.
  pub data Event : Type 0 where
    opened closed : RouteLease → ℕ → Event

  unfoldable pub step : Event → TunnelRegistry → TunnelRegistry
  unfolding release
  step (opened lease session) reg = record reg { routes = register lease.host session reg.routes }
  step (closed lease session) reg = release lease session reg

  -- A run of events, the latest first.
  unfoldable pub run : List Event → TunnelRegistry → TunnelRegistry
  unfolding step
  run [] reg = reg
  run (e ∷ es) reg = step e (run es reg)
