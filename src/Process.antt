-- ===== src/Process.antt =====
-- The child processes of a command.
pub mod Env
