-- ===== src/Tunnel.antt =====
-- internal/tunnel: the agent's side of the tunnel.
pub mod Client
