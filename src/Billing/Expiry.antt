-- ===== src/Billing/Expiry.antt =====
-- `listExpiredCreditHolds` of src/storage/postgres-store.ts and `#releaseExpiredHolds` of
-- src/modules/billing/service.ts. The database's order of texts and the random ids of the
-- transactions are parameters.
use otto_control.Prelude.{
  ℕ, String, ◌===◌, Bool, true, false, ◌&&◌, ◌||◌, none, some, List, ◌∷◌, [], leb, ltb, ◌==◌,
  if◌then◌else◌, select, take, sort_by,
}
use Prim.Native.String.{◌++◌}
use text.Mathlib.Text.{find?}
use otto_control.Errors.{
  Result, ok, err, Failure, invalid_request, unauthorized, forbidden, not_found, conflict,
  rate_limited, capacity_exceeded, approval_required, database, type_error,
}
use otto_control.Billing.Records.{Hold}
use otto_control.Billing.Tables.{Ledger, is_active}
use otto_control.Billing.Captures.{Release, release_credit_hold, expired}

-- The message of an error; those of the database and of the runtime say nothing of holds.
unfoldable pub message : Failure → String
message (invalid_request m) = m
message (unauthorized m) = m
message (forbidden m) = m
message (not_found m) = m
message (conflict m) = m
message (rate_limited m) = m
message (capacity_exceeded m) = m
message (approval_required m) = m
message (database _) = ""
message type_error = ""

abbrev pub contains : String → String → Bool
contains text part = elim (find? text part) [ none ↦ false | some i ↦ true ]

module _ (text_lt : String → String → Bool) (transaction_id : String → String) where
  -- `ORDER BY expires_at, id`.
  abbrev pub before : Hold → Hold → Bool
  before h k = ltb h.expires_at k.expires_at || (h.expires_at == k.expires_at && text_lt h.id k.id)

  abbrev pub is_due : String → ℕ → Hold → Bool
  is_due c now h = h.customer_id === c && is_active h.status && leb h.expires_at now

  unfoldable pub list_expired_holds : Ledger → String → ℕ → ℕ → List Hold
  list_expired_holds l c now limit = take limit (sort_by before (select (is_due c now) l.holds))

  abbrev pub expiry_release : String → ℕ → Hold → Release
  expiry_release c now h = record {
    transaction_id = transaction_id h.id;
    hold_id = h.id;
    customer_id = c;
    idempotency_key = "expiry:" ++ h.id;
    reason = expired;
    description = "Expired credit hold released automatically";
    occurred_at = now;
  }

  -- The loop: each release is a transaction of its own, and an error that does not say that the
  -- hold is no longer active ends it.
  unfoldable pub release_each : String → ℕ → List Hold → Ledger → Result (Unit {0}) × Ledger
  release_each c now [] l = (ok tt, l)
  release_each c now (h ∷ hs) l = elim (release_credit_hold l (expiry_release c now h)) [
    | ok (r, l') ↦ release_each c now hs l'
    | err e ↦
        let rest = release_each c now hs l in
        if contains (message e) "no longer active" then rest else (err e, l)
  ]

  unfoldable pub release_expired_holds : Ledger → String → ℕ → Result (Unit {0}) × Ledger
  release_expired_holds l c now = release_each c now (list_expired_holds l c now 100) l
