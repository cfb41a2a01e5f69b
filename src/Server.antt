-- ===== src/Server.antt =====
-- internal/server: the public server's policy and its persistent holds.
pub mod Holds
pub mod Limiter
pub mod Host
pub mod Allow
pub mod Reserved
pub mod Config
pub mod Tokens
pub mod Authorize
pub mod Broker
pub mod Tunnels
pub mod Ingress
