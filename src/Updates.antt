-- ===== src/Updates.antt =====
-- The update releases: `createUpdateRelease` to `getActiveUpdateReleases` of
-- src/storage/postgres-store.ts on the table of src/storage/migrations.ts (003). Each method is one
-- transaction, which locks the rows that it reads.
pub mod Releases
pub mod Channels
pub mod Activation
pub mod Rollback
mod Tests
