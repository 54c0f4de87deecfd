-- ===== src/Audit.antt =====
-- The audit chain of src/audit-chain.ts, src/modules/audit/service.ts and the audit tables of
-- src/storage/postgres-store.ts.
pub mod Canonical
pub mod Chain
pub mod Verify
pub mod Terminates
pub mod Restored
pub mod Stored
pub mod Linked
pub mod Tampered
pub mod Appended
pub mod Accepted
mod Tests
