-- ===== src/Agent.antt =====
-- internal/agent: the nodes that run agents.
pub mod Pool
