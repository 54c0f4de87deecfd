-- ===== src/Billing/TopUps.antt =====
-- `topUpCredits` of src/storage/postgres-store.ts, lines 3037 to 3113.
use otto_control.Prelude.{
  ℕ, String, ◌=?◌, Bool, true, false, ◌&&◌, none, some, ℤ, pos, ◌==◌, if◌then◌else◌,
}
use otto_control.Errors.{Result, ok, err, ◌>>=◌}
use otto_control.Billing.Records.{Account, Transaction, Metadata, topup}
use otto_control.Billing.Tables.{Ledger, Change, no_change, is_kind, find_transaction, catching}
use otto_control.Billing.Post.{Mutation, reused, posting, open_account}

pub record TopUp : Type 0 where
  pub transaction_id : String
  pub customer_id : String
  pub organization_id : String
  pub amount : ℕ
  pub idempotency_key : String
  pub reference_id : String
  pub description : String
  pub metadata : Metadata
  pub occurred_at : ℕ

abbrev pub is_topup_of : TopUp → Transaction → Bool
is_topup_of i t =
    is_kind t.kind topup && is_delta t.available_delta && t.reference_id =? some i.reference_id
  where
    is_delta : ℤ → Bool
    is_delta (pos n) = n == i.amount
    is_delta _ = false

abbrev pub topup_transaction : TopUp → Account → Transaction
topup_transaction i a = record {
  id = i.transaction_id;
  customer_id = i.customer_id;
  organization_id = some i.organization_id;
  deployment_id = none;
  module_id = none;
  kind = topup;
  available_delta = pos i.amount;
  frozen_delta = pos 0;
  billed_amount = 0;
  available_after = a.available_balance;
  frozen_after = a.frozen_balance;
  idempotency_key = i.idempotency_key;
  reference_id = some i.reference_id;
  related_transaction_id = none;
  description = i.description;
  metadata = i.metadata;
  occurred_at = i.occurred_at;
}

abbrev pub topup_change : TopUp → Change
topup_change i = record no_change { available_plus = i.amount; topped_up = i.amount }

unfoldable pub post_topup : Ledger → Account → TopUp → Result (Mutation × Ledger)
post_topup l current i =
    posting l i.customer_id i.organization_id current (topup_change i) i.occurred_at (ok l.holds)
      (topup_transaction i)
      (λ a. record { account = a; transaction = topup_transaction i a; replayed = false })

unfoldable pub replay_topup : Ledger → Account → TopUp → Transaction → Result (Mutation × Ledger)
replay_topup l current i t =
    if is_topup_of i t
    then ok (record { account = current; transaction = t; replayed = true }, l)
    else err reused

unfoldable pub top_up_on : TopUp → Account → Ledger → Result (Mutation × Ledger)
top_up_on i current l =
    elim (find_transaction l i.customer_id i.organization_id i.idempotency_key) [
      | some t ↦ replay_topup l current i t
      | none ↦ post_topup l current i
    ]

unfoldable pub top_up_credits : Ledger → TopUp → Result (Mutation × Ledger)
top_up_credits l i = catching true true do
  (current, l') ← open_account l i.customer_id i.organization_id i.occurred_at
  top_up_on i current l'
