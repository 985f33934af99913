-- ===== src/EditorCore.antt =====
-- packages/editor-core.
pub mod State
pub mod Texts
pub mod Undo
pub mod WordCount
pub mod GhostText
pub mod Acceptance
mod Examples
