-- ===== src/Commerce.antt =====
-- The sale of licenses: the tables of customers, deployments and licenses in
-- src/storage/postgres-store.ts, and src/modules/commercial-control/service.ts on them.
pub mod Records
pub mod Store
pub mod Changes
pub mod Revisions
pub mod Lost
pub mod LeaseChecks
pub mod Leases
pub mod LeaseTimes
pub mod LeaseWindow
pub mod Telemetry
pub mod Content
pub mod Ingested
mod Tests
