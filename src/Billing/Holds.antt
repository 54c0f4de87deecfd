-- ===== src/Billing/Holds.antt =====
-- The credit holds of src/storage/postgres-store.ts: `createCreditHold`. A failure
-- rolls the state back.
use otto_control.Prelude.{
  ℕ, String, ◌===◌, Bool, true, false, ◌&&◌, none, some, pos, sub_ℕ, ◌==◌, leb, find,
}
use otto_control.Errors.{Result, ok, conflict, ◌>>=◌, ◌>>◌, ensure}
use otto_control.Billing.Records.{Account, Hold, active, Transaction, Module, freeze}
use otto_control.Billing.Tables.{
  Ledger, Change, no_change, is_module, find_transaction, insert_hold, catching,
}
use otto_control.Billing.Post.{HoldMutation, no_metadata, found, posting, open_account, missing_row}

pub record HoldRequest : Type 0 where
  pub hold_id : String
  pub transaction_id : String
  pub customer_id : String
  pub organization_id : String
  pub deployment_id : String
  pub module_id : Module
  pub amount : ℕ
  pub idempotency_key : String
  pub expires_at : ℕ
  pub occurred_at : ℕ

abbrev pub is_hold_keyed : String → String → String → Hold → Bool
is_hold_keyed c o key h =
    h.customer_id === c && h.organization_id === o && h.idempotency_key === key

abbrev pub is_hold_of : HoldRequest → Hold → Bool
is_hold_of i h =
    h.organization_id === i.organization_id
    && h.deployment_id === i.deployment_id
    && is_module h.module_id i.module_id
    && h.amount == i.amount

abbrev pub new_hold : HoldRequest → Hold
new_hold i = record {
  id = i.hold_id;
  customer_id = i.customer_id;
  organization_id = i.organization_id;
  deployment_id = i.deployment_id;
  module_id = i.module_id;
  amount = i.amount;
  status = active;
  idempotency_key = i.idempotency_key;
  expires_at = i.expires_at;
  created_at = i.occurred_at;
  updated_at = i.occurred_at;
}

abbrev pub freeze_transaction : HoldRequest → Account → Transaction
freeze_transaction i a = record {
  id = i.transaction_id;
  customer_id = i.customer_id;
  organization_id = some i.organization_id;
  deployment_id = some i.deployment_id;
  module_id = some i.module_id;
  kind = freeze;
  available_delta = sub_ℕ 0 i.amount;
  frozen_delta = pos i.amount;
  billed_amount = 0;
  available_after = a.available_balance;
  frozen_after = a.frozen_balance;
  idempotency_key = i.idempotency_key;
  reference_id = some i.hold_id;
  related_transaction_id = none;
  description = "Credit hold created";
  metadata = no_metadata;
  occurred_at = i.occurred_at;
}

abbrev pub freeze_change : HoldRequest → Change
freeze_change i = record no_change { available_minus = i.amount; frozen_plus = i.amount }

unfoldable pub post_hold : Ledger → Account → HoldRequest → Result (HoldMutation × Ledger)
post_hold l current i = do
  ensure (leb i.amount current.available_balance) (conflict "insufficient available credits")
  posting l i.customer_id i.organization_id current (freeze_change i) i.occurred_at
      (insert_hold (new_hold i) l.holds) (freeze_transaction i)
      (λ a. record {
        account = a;
        hold = new_hold i;
        transaction = freeze_transaction i a;
        replayed = false;
      })

-- A hold without the transaction that created it would make the source read `undefined`.
unfoldable pub replay_hold : Ledger → Account → HoldRequest → Hold → Result (HoldMutation × Ledger)
replay_hold l current i h = do
  ensure (is_hold_of i h) (conflict "idempotency key was already used for a different hold")
  t ← found (find_transaction l i.customer_id i.organization_id i.idempotency_key) missing_row
  ok (record { account = current; hold = h; transaction = t; replayed = true }, l)

unfoldable pub create_hold_on : HoldRequest → Account → Ledger → Result (HoldMutation × Ledger)
create_hold_on i current l =
    elim (find (is_hold_keyed i.customer_id i.organization_id i.idempotency_key) l.holds) [
      | some h ↦ replay_hold l current i h
      | none ↦ post_hold l current i
    ]

unfoldable pub create_credit_hold : Ledger → HoldRequest → Result (HoldMutation × Ledger)
create_credit_hold l i = catching true false do
  (current, l') ← open_account l i.customer_id i.organization_id i.occurred_at
  create_hold_on i current l'
