-- ===== src/Logs.antt =====
-- internal/logs: the agent's bounded request log and the captures of requests and responses.
pub mod Capture
pub mod Entry
pub mod Store
