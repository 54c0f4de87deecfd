-- ===== src/Billing.antt =====
-- The credit ledger: src/contracts/billing.ts, the credit methods of
-- src/storage/postgres-store.ts and the pricing and expiry of src/modules/billing/service.ts.
pub mod Records
pub mod Tables
pub mod Post
pub mod TopUps
pub mod Holds
pub mod Captures
pub mod Charges
pub mod Sums
pub mod Sound
pub mod Settle
pub mod Preserve
pub mod Charged
pub mod Held
pub mod Each
pub mod Runs
pub mod Pricing
pub mod Expiry
pub mod Replays
pub mod Clashes
pub mod Blocked
mod Tests
