-- ===== src/Billing/Captures.antt =====
-- `captureCreditHold` and `releaseCreditHold` of src/storage/postgres-store.ts. A failure rolls the
-- state back, and so does `null`, here `none`.
use otto_control.Prelude.{
  ℕ, ◌+◌, String, ◌=?◌, Bool, true, false, ◌&&◌, Option, none, some, pos, sub_ℕ, ◌==◌, leb, ltb,
  if◌then◌else◌,
}
use otto_control.Errors.{Result, ok, err, conflict, ◌>>=◌, ◌>>◌, ensure}
use otto_control.Billing.Records.{
  Account, Hold, HoldStatus, captured, Transaction, capture, release,
}
use otto_control.Billing.Tables.{
  Ledger, Change, no_change, is_kind, is_active, find_transaction, find_hold, marked, mark_hold,
  catching,
}
use otto_control.Billing.Post.{HoldMutation, no_metadata, reused, posting}

pub record Capture : Type 0 where
  pub transaction_id : String
  pub hold_id : String
  pub customer_id : String
  pub amount : ℕ
  pub idempotency_key : String
  pub reference_id : String
  pub description : String
  pub occurred_at : ℕ

abbrev pub is_capture_of : Capture → Transaction → Bool
is_capture_of i t =
    is_kind t.kind capture
    && t.reference_id =? some i.reference_id
    && t.metadata.hold_id =? some i.hold_id
    && t.billed_amount == i.amount

abbrev pub capture_transaction : Capture → Hold → Account → Transaction
capture_transaction i h a = record {
  id = i.transaction_id;
  customer_id = i.customer_id;
  organization_id = some h.organization_id;
  deployment_id = some h.deployment_id;
  module_id = some h.module_id;
  kind = capture;
  available_delta = sub_ℕ h.amount i.amount;
  frozen_delta = sub_ℕ 0 h.amount;
  billed_amount = i.amount;
  available_after = a.available_balance;
  frozen_after = a.frozen_balance;
  idempotency_key = i.idempotency_key;
  reference_id = some i.reference_id;
  related_transaction_id = none;
  description = i.description;
  metadata = record no_metadata { hold_id = some i.hold_id };
  occurred_at = i.occurred_at;
}

abbrev pub capture_change : Capture → Hold → Change
capture_change i h = record no_change {
  available_plus = h.amount;
  available_minus = i.amount;
  frozen_minus = h.amount;
  consumed = i.amount;
}

unfoldable pub post_capture : Ledger → Account → Capture → Hold → Result (HoldMutation × Ledger)
post_capture l current i h = do
  ensure (is_active h.status) (conflict "credit hold is no longer active")
  ensure (ltb i.occurred_at h.expires_at) (conflict "credit hold has expired")
  ensure (leb i.amount (current.available_balance + h.amount))
      (conflict "insufficient available credits for capture")
  posting l i.customer_id h.organization_id current (capture_change i h) i.occurred_at
      (ok (mark_hold i.hold_id captured i.occurred_at l.holds)) (capture_transaction i h)
      (λ a. record {
        account = a;
        hold = marked captured i.occurred_at h;
        transaction = capture_transaction i h a;
        replayed = false;
      })

unfoldable pub replay_on_hold :
    Ledger → Account → Hold → Bool → Transaction → Result (HoldMutation × Ledger)
replay_on_hold l current h same t =
    if same
    then ok (record { account = current; hold = h; transaction = t; replayed = true }, l)
    else err reused

-- The reads that `captureCreditHold` and `releaseCreditHold` begin with: the hold and its account.
unfoldable pub with_hold {ℓ} :
    {A : Type ℓ}
    → Ledger
    → String
    → String
    → (Hold → Account → Result (A × Ledger))
    → Result (Option A × Ledger)
with_hold l id c body = elim (find_hold id c l.holds) [
  | none ↦ ok (none, l)
  | some h ↦ elim (l.accounts c h.organization_id) [
    | none ↦ ok (none, l)
    | some current ↦ body h current >>= λ (r, l'). ok (some r, l')
  ]
]

unfoldable pub capture_credit_hold : Ledger → Capture → Result (Option HoldMutation × Ledger)
capture_credit_hold l i = catching false true (
    with_hold l i.hold_id i.customer_id λ h current.
      elim (find_transaction l i.customer_id h.organization_id i.idempotency_key) [
        | some t ↦ replay_on_hold l current h (is_capture_of i t) t
        | none ↦ post_capture l current i h
      ])

pub data Reason : Type 0 where
  released expired : Reason

abbrev pub status_of : Reason → HoldStatus
status_of Reason.released = HoldStatus.released
status_of Reason.expired = HoldStatus.expired

pub record Release : Type 0 where
  pub transaction_id : String
  pub hold_id : String
  pub customer_id : String
  pub idempotency_key : String
  pub reason : Reason
  pub description : String
  pub occurred_at : ℕ

abbrev pub is_release_of : Release → Transaction → Bool
is_release_of i t = is_kind t.kind release && t.reference_id =? some i.hold_id

abbrev pub release_transaction : Release → Hold → Account → Transaction
release_transaction i h a = record {
  id = i.transaction_id;
  customer_id = i.customer_id;
  organization_id = some h.organization_id;
  deployment_id = some h.deployment_id;
  module_id = some h.module_id;
  kind = release;
  available_delta = pos h.amount;
  frozen_delta = sub_ℕ 0 h.amount;
  billed_amount = 0;
  available_after = a.available_balance;
  frozen_after = a.frozen_balance;
  idempotency_key = i.idempotency_key;
  reference_id = some i.hold_id;
  related_transaction_id = none;
  description = i.description;
  metadata = no_metadata;
  occurred_at = i.occurred_at;
}

abbrev pub release_change : Hold → Change
release_change h = record no_change { available_plus = h.amount; frozen_minus = h.amount }

unfoldable pub post_release : Ledger → Account → Release → Hold → Result (HoldMutation × Ledger)
post_release l current i h = do
  ensure (is_active h.status) (conflict "credit hold is no longer active")
  posting l i.customer_id h.organization_id current (release_change h) i.occurred_at
      (ok (mark_hold i.hold_id (status_of i.reason) i.occurred_at l.holds))
      (release_transaction i h)
      (λ a. record {
        account = a;
        hold = marked (status_of i.reason) i.occurred_at h;
        transaction = release_transaction i h a;
        replayed = false;
      })

unfoldable pub release_credit_hold : Ledger → Release → Result (Option HoldMutation × Ledger)
release_credit_hold l i = catching false false (
    with_hold l i.hold_id i.customer_id λ h current.
      elim (find_transaction l i.customer_id h.organization_id i.idempotency_key) [
        | some t ↦ replay_on_hold l current h (is_release_of i t) t
        | none ↦ post_release l current i h
      ])
