-- ===== src/SessionBackends.antt =====
-- packages/session-backends.
pub mod Contract
pub mod Journals
pub mod Memory
pub mod Paging
pub mod Forking
