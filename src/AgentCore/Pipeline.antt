-- ===== src/AgentCore/Pipeline.antt =====
-- packages/agent-core/src/pipeline.
pub mod Stages
pub mod Gates
pub mod Roles
mod Examples
