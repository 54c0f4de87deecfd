-- ===== src/Licenses.antt =====
-- The use of a license's seats: `recordLicenseSeatUsage` and `getLicenseSeatUsage` of
-- src/storage/postgres-store.ts on the table of src/storage/migrations.ts (007).
pub mod Seats
pub mod Grace
mod Tests
