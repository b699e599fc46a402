-- ===== src/Agent.antt =====
-- The agent's client and its server together: the reconcilers' calls, answered by the server's
-- methods.
pub mod Served
pub mod Images
