-- ===== src/Config.antt =====
-- The configuration of a command.
pub mod Resolve
pub mod File
pub mod Load
