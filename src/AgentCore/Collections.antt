-- ===== src/AgentCore/Collections.antt =====
-- The small stores of packages/agent-core/src: clipboard/kill-ring.ts and queues.ts.
pub mod KillRing
pub mod MessageQueue
mod Examples
