-- ===== src/Billing/Charges.antt =====
-- `consumeCredits` and `refundCredits` of src/storage/postgres-store.ts.
use otto_control.Prelude.{
  ℕ, ◌+◌, String, ◌===◌, ◌=?◌, Bool, true, false, not, ◌&&◌, ◌||◌, Option, none, some, pos, sub_ℕ,
  ◌==◌, leb, find, if◌then◌else◌,
}
use otto_control.Errors.{Result, ok, err, conflict, ◌>>=◌, ◌>>◌, ensure}
use otto_control.Billing.Records.{Account, Transaction, Module, Metadata, capture, consume, refund}
use otto_control.Billing.Tables.{
  Ledger, Change, no_change, is_module, is_kind, find_transaction, refunded_total, catching,
}
use otto_control.Billing.Post.{Mutation, reused, posting, open_account}

pub record Consumption : Type 0 where
  pub transaction_id : String
  pub customer_id : String
  pub organization_id : String
  pub deployment_id : String
  pub module_id : Module
  pub amount : ℕ
  pub idempotency_key : String
  pub reference_id : String
  pub description : String
  pub metadata : Metadata
  pub occurred_at : ℕ

abbrev pub is_some_module : Option Module → Module → Bool
is_some_module none m = false
is_some_module (some n) m = is_module n m

abbrev pub is_consumption_of : Consumption → Transaction → Bool
is_consumption_of i t =
    is_kind t.kind consume
    && t.billed_amount == i.amount
    && t.organization_id =? some i.organization_id
    && t.deployment_id =? some i.deployment_id
    && is_some_module t.module_id i.module_id
    && t.reference_id =? some i.reference_id

abbrev pub consume_transaction : Consumption → Account → Transaction
consume_transaction i a = record {
  id = i.transaction_id;
  customer_id = i.customer_id;
  organization_id = some i.organization_id;
  deployment_id = some i.deployment_id;
  module_id = some i.module_id;
  kind = consume;
  available_delta = sub_ℕ 0 i.amount;
  frozen_delta = pos 0;
  billed_amount = i.amount;
  available_after = a.available_balance;
  frozen_after = a.frozen_balance;
  idempotency_key = i.idempotency_key;
  reference_id = some i.reference_id;
  related_transaction_id = none;
  description = i.description;
  metadata = i.metadata;
  occurred_at = i.occurred_at;
}

abbrev pub consume_change : Consumption → Change
consume_change i = record no_change { available_minus = i.amount; consumed = i.amount }

unfoldable pub post_consumption : Ledger → Account → Consumption → Result (Mutation × Ledger)
post_consumption l current i = do
  ensure (leb i.amount current.available_balance) (conflict "insufficient available credits")
  posting l i.customer_id i.organization_id current (consume_change i) i.occurred_at (ok l.holds)
      (consume_transaction i)
      (λ a. record { account = a; transaction = consume_transaction i a; replayed = false })

unfoldable pub replay : Ledger → Account → Bool → Transaction → Result (Mutation × Ledger)
replay l current same t =
    if same
    then ok (record { account = current; transaction = t; replayed = true }, l)
    else err reused

unfoldable pub consume_credits : Ledger → Consumption → Result (Mutation × Ledger)
consume_credits l i = catching true true do
  (current, l') ← open_account l i.customer_id i.organization_id i.occurred_at
  elim (find_transaction l' i.customer_id i.organization_id i.idempotency_key) [
    | some t ↦ replay l' current (is_consumption_of i t) t
    | none ↦ post_consumption l' current i
  ]

pub record Refund : Type 0 where
  pub transaction_id : String
  pub customer_id : String
  pub related_transaction_id : String
  pub amount : ℕ
  pub idempotency_key : String
  pub reference_id : String
  pub description : String
  pub metadata : Metadata
  pub occurred_at : ℕ

abbrev pub is_refund_of : Refund → Transaction → Bool
is_refund_of i t =
    is_kind t.kind refund
    && t.billed_amount == i.amount
    && t.related_transaction_id =? some i.related_transaction_id
    && t.reference_id =? some i.reference_id

-- `['consume', 'capture'].includes(type)`.
abbrev pub is_charge : Transaction → Bool
is_charge t = is_kind t.kind consume || is_kind t.kind capture

abbrev pub refund_transaction : Refund → Transaction → String → Account → Transaction
refund_transaction i original o a = record {
  id = i.transaction_id;
  customer_id = i.customer_id;
  organization_id = some o;
  deployment_id = original.deployment_id;
  module_id = original.module_id;
  kind = refund;
  available_delta = pos i.amount;
  frozen_delta = pos 0;
  billed_amount = i.amount;
  available_after = a.available_balance;
  frozen_after = a.frozen_balance;
  idempotency_key = i.idempotency_key;
  reference_id = some i.reference_id;
  related_transaction_id = some i.related_transaction_id;
  description = i.description;
  metadata = record metadata {
    execution_receipt_id = original.metadata.execution_receipt_id;
    receipt_verification_status = original.metadata.receipt_verification_status;
  };
  occurred_at = i.occurred_at;
}
  where
    open i use {metadata}

abbrev pub refund_change : Refund → Change
refund_change i = record no_change { available_plus = i.amount; refunded = i.amount }

unfoldable pub post_refund :
    Ledger → Account → Refund → Transaction → String → Result (Mutation × Ledger)
post_refund l current i original o = do
  ensure
      (leb (refunded_total i.related_transaction_id l.transactions + i.amount)
        original.billed_amount)
      (conflict "refund exceeds the remaining refundable amount")
  posting l i.customer_id o current (refund_change i) i.occurred_at (ok l.holds)
      (refund_transaction i original o)
      (λ a. record {
        account = a;
        transaction = refund_transaction i original o a;
        replayed = false;
      })

unfoldable pub find_by_id : String → String → Ledger → Option Transaction
find_by_id id c l = find (λ t. t.id === id && t.customer_id === c) l.transactions

-- The original, if it is a charge of an organization; `!original.organization_id` also refuses the
-- empty text.
unfoldable pub find_original : Ledger → Refund → Option (Transaction × String)
find_original l i = elim (find_by_id i.related_transaction_id i.customer_id l) [
  | none ↦ none
  | some t ↦ elim t.organization_id [
    | none ↦ none
    | some o ↦ if is_charge t && not (o === "") then some (t, o) else none
  ]
]

unfoldable pub refund_on :
    Ledger → Account → Refund → Transaction → String → Result (Mutation × Ledger)
refund_on l current i original o = elim (find_transaction l i.customer_id o i.idempotency_key) [
  | some t ↦ replay l current (is_refund_of i t) t
  | none ↦ post_refund l current i original o
]

unfoldable pub refund_credits : Ledger → Refund → Result (Option Mutation × Ledger)
refund_credits l i = catching false true (elim (find_original l i) [
  | none ↦ ok (none, l)
  | some (original, o) ↦ elim (l.accounts i.customer_id o) [
    | none ↦ ok (none, l)
    | some current ↦ refund_on l current i original o >>= λ (r, l'). ok (some r, l')
  ]
])
