-- ===== src/Agent.antt =====
-- The local agent.
pub mod Registry
pub mod Tunnels
pub mod Owners
pub mod Api
