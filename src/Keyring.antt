-- ===== src/Keyring.antt =====
-- The signing keys: `registerSigningKey` to `revokeSigningKey` of src/storage/postgres-store.ts on
-- the table of src/storage/migrations.ts (005). Activation and revocation hold an advisory lock to
-- the end of their transaction, so each is one step.
pub mod Ring
pub mod Transitions
pub mod Single
pub mod Revoked
mod Tests
