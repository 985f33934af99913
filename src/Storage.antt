-- ===== src/Storage.antt =====
-- @inkpi/storage: leases, and the queue of document mutations.
pub mod LeaseTable
pub mod Leases
