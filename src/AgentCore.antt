-- ===== src/AgentCore.antt =====
-- packages/agent-core.
pub mod Scheduler
pub mod SessionTree
pub mod Collections
pub mod Pipeline
