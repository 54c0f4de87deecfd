-- ===== src/Federation.antt =====
-- The relay between deployments: src/contracts/federation.ts, src/modules/federation/store.ts and
-- the store of src/modules/federation/memory-store.ts. Instants are milliseconds; those that the
-- source keeps as ISO texts (the envelope's `expiresAt`) are the instants that they denote.
pub mod Records
pub mod Directory
pub mod Limits
pub mod Grants
pub mod Enqueue
pub mod Claims
pub mod Sweep
pub mod Lifecycle
pub mod Kept
pub mod Queued
pub mod Aside
pub mod Steps
pub mod Handover
pub mod Settled
pub mod Portions
pub mod Nonces
pub mod Remembered
pub mod Replay
pub mod Granted
pub mod Barriers
pub mod Swept
pub mod Counted
pub mod Capacity
pub mod Windows
mod Tests
