-- ===== src/Lib.antt =====
-- Verification of the core of otto-control, a control plane for deployments of an enterprise AI
-- product: it sells credits, relays messages between deployments, signs licenses and publishes
-- updates. Paths are from the root of the repository.
--
-- Parts and how they interact. The stores keep all state; the services check a request, call one or
-- a few methods of a store and record an audit event. Each method of the PostgreSQL store is one
-- transaction that locks the rows it reads, so it is one step on the tables here; a failure rolls
-- back, and the state before it stays. The relay's memory store runs each method to its end.
--
-- - Prelude: names of the libraries, Boolean tests, lists over native numbers, JavaScript's `Map` as
--   its entries in the order of insertion, and its stable sort.
-- - Errors: src/errors.ts, with the SQLSTATE codes that the stores tell apart.
-- - Billing: src/contracts/billing.ts, the credit methods of src/storage/postgres-store.ts on the
--   tables of src/storage/migrations.ts, and pricing and expiry of src/modules/billing/service.ts.
--   `Ledger` is the state; topUpCredits, createCreditHold, captureCreditHold, releaseCreditHold,
--   consumeCredits and refundCredits are top_up_credits, create_credit_hold, capture_credit_hold,
--   release_credit_hold, consume_credits and refund_credits. Billing/Tables has the statements,
--   Billing/Post what the operations share, Billing/Runs sequences of calls.
-- - Federation: src/modules/federation/memory-store.ts with src/contracts/federation.ts. `Store` has
--   the maps of MemoryFederationStore; each method is a function of the same name. Federation/Steps
--   is the step relation of all calls and the stores that they reach.
-- - Keyring: registerSigningKey to revokeSigningKey of src/storage/postgres-store.ts.
-- - Updates: createUpdateRelease to getActiveUpdateReleases of src/storage/postgres-store.ts.
-- - Licenses: recordLicenseSeatUsage of src/storage/postgres-store.ts.
-- - Requests: `objectValue` and `requiredString`, which the services read bodies with.
-- - Audit: src/audit-chain.ts, canonicalJson of src/crypto/signed-envelope.ts, the audit methods of
--   src/storage/postgres-store.ts and verify of src/modules/audit/service.ts. `AuditStore` is the table
--   with the row of the chain's state. Audit/Restored says what a column of
--   type JSONB keeps.
-- - Commerce: customers, deployments, licenses and nonces of src/storage/postgres-store.ts, with the
--   changes of licenses, the leases and the search for content in telemetry of
--   src/modules/commercial-control/service.ts. Leases use Licenses, and changes append to Audit.
-- - Policy: src/modules/update-policy/service.ts, on the releases of Updates and the licenses of
--   Commerce. Policy/Resolve is the handler of a request, Policy/Versions the order of versions.
-- - Alerts: the queue of alert deliveries of src/storage/postgres-store.ts and the loop of
--   src/modules/alert-delivery/service.ts that delivers a batch. Both append to Audit.
--
-- A handler whose writes outlast a later failure gives its answer and the store; all others give
-- the store with the answer only, since a failure leaves it as it was.
--
-- Numbers. Credits, sizes and instants (milliseconds) are natural numbers; the columns' ranges are
-- the checks of the tables, written out. A division by the size of a rate is exact below 2^53.
-- Loops are recursion on a list; the verification of the audit chain alone has fuel, one unit for
-- each sequence number and one more, which is enough since each round reads one event at least.
--
-- Parameters, since their code is no part of the repository: the hash of a claim's token, the token
-- that is drawn for a claim, `localeCompare`, the order of texts in the database, and the random
-- ids of the transactions that release expired holds; SHA-256, `JSON.stringify`, regular expressions,
-- `Number`, `Date.parse`, what a column of type JSONB gives back, the sending of an alert, the
-- signatures of payloads and the tokens of licenses.
--
-- Not modelled: HTTP routes, configuration and servers; cryptography and remote signers; object
-- stores; the console's pages; the relay's own PostgreSQL store and service; execution receipts, the
-- issue and the resize of licenses, administrators, the observations that raise alerts, audit anchors and witness, release artifacts
-- and data retention, which later work can add.
pub mod Prelude
pub mod Errors
pub mod Billing
pub mod Federation
pub mod Keyring
pub mod Updates
pub mod Licenses
pub mod Requests
pub mod Audit
pub mod Commerce
pub mod Policy
pub mod Alerts
