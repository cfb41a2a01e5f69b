-- ===== src/Agentctl.antt =====
-- internal/agentctl: the commands' side of the agent.
pub mod Reconcile
