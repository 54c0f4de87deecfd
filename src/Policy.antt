-- ===== src/Policy.antt =====
-- The update policy: src/modules/update-policy/service.ts on the releases, distributions and
-- assignments of src/storage/postgres-store.ts.
pub mod Versions
pub mod Order
pub mod Store
pub mod Request
pub mod Resolve
pub mod Service
pub mod Create
pub mod Offers
pub mod Served
mod Tests
