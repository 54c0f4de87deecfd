-- ===== src/Billing/Tests.antt =====
-- Runs of the credit ledger on small inputs.
use otto_control.Prelude.{
  true, false, none, some, List, [], ◌∷◌, ◌≡◌, refl, ◌≤◌, ◌-◌, ◌+◌, ◌*◌, arith,
}
use otto_control.Billing.Tables.{
  find_hold, insert_transaction, find_transaction, ensure_account, catching, Ledger, new_account,
  update_account,
}
use otto_control.Billing.Expiry.{list_expired_holds, release_expired_holds}
use otto_control.Billing.Pricing.{
  ceil_div, price_at, get_billing_rate, price, max_credits, price_bounds,
}
use otto_control.Billing.Post.{settle, posting, open_account, Mutation, no_metadata, reused}
use otto_control.Billing.TopUps.{post_topup, top_up_on, TopUp, top_up_credits, topup_transaction}
use otto_control.Errors.{ok, err, database, unique_violation}
use otto_control.Billing.Records.{Account, BillingRate, Hold, model_gateway}
use otto_control.Billing.Holds.{HoldRequest, create_credit_hold, new_hold}
use otto_control.Billing.Captures.{Capture}
use otto_control.Billing.Charges.{
  consume_credits, post_consumption, Consumption, Refund, consume_transaction,
}
use otto_control.Billing.Sound.{IsSound}
use otto_control.Billing.Runs.{
  Command, topping_up, holding, capturing, consuming, refunding, perform_all, opening,
  perform_all-IsSound, after,
}
use otto_control.Billing.Replays.{top_up_credits_again}
use otto_control.Billing.Blocked.{expiry_blocked}
use otto_control.Billing.Clashes.{create_credit_hold_clash}

abbrev gateway_rate : BillingRate
gateway_rate = record {
  customer_id = "acme";
  module_id = model_gateway;
  unit_size = 10;
  credits_per_unit = 3;
  updated_by = "admin";
  created_at = 0;
  updated_at = 0;
}

abbrev start : Ledger
start = record {
  customers = "acme" ∷ [];
  rates = gateway_rate ∷ [];
  accounts = λ c o. none;
  holds = [];
  transactions = [];
}

abbrev payment : TopUp
payment = record {
  transaction_id = "t1";
  customer_id = "acme";
  organization_id = "org";
  amount = 100;
  idempotency_key = "pay-1";
  reference_id = "invoice-1";
  description = "paid";
  metadata = no_metadata;
  occurred_at = 1;
}

abbrev reservation : HoldRequest
reservation = record {
  hold_id = "h1";
  transaction_id = "t2";
  customer_id = "acme";
  organization_id = "org";
  deployment_id = "dep";
  module_id = model_gateway;
  amount = 40;
  idempotency_key = "hold-1";
  expires_at = 50;
  occurred_at = 2;
}

abbrev settlement : Capture
settlement = record {
  transaction_id = "t3";
  hold_id = "h1";
  customer_id = "acme";
  amount = 30;
  idempotency_key = "capture-1";
  reference_id = "call-1";
  description = "used";
  occurred_at = 3;
}

abbrev usage : Consumption
usage = record {
  transaction_id = "t4";
  customer_id = "acme";
  organization_id = "org";
  deployment_id = "dep";
  module_id = model_gateway;
  amount = 20;
  idempotency_key = "expiry:h1";
  reference_id = "call-2";
  description = "used";
  metadata = no_metadata;
  occurred_at = 4;
}

abbrev credit : Refund
credit = record {
  transaction_id = "t5";
  customer_id = "acme";
  related_transaction_id = "t4";
  amount = 5;
  idempotency_key = "refund-1";
  reference_id = "ticket-1";
  description = "goodwill";
  metadata = no_metadata;
  occurred_at = 5;
}

abbrev day : List Command
day =
    topping_up payment
    ∷ holding reservation
    ∷ capturing settlement
    ∷ consuming usage
    ∷ refunding credit
    ∷ []

perform_all-IsSound_example : IsSound (perform_all (opening start) day)
perform_all-IsSound_example = perform_all-IsSound start day

abbrev paid : Ledger
paid = after start (top_up_credits start payment)

abbrev paid_account : Account
paid_account = record (new_account "acme" "org" 1) {
  available_balance = 100;
  total_topped_up = 100;
  version = 2;
}

abbrev paid_mutation : Mutation
paid_mutation = record {
  account = paid_account;
  transaction = topup_transaction payment paid_account;
  replayed = false;
}

top_up_credits_again_example :
    top_up_credits paid (record payment { transaction_id = "t9"; occurred_at = 7 })
    ≡ ok (record paid_mutation { replayed = true }, paid)
unfolding top_up_credits catching open_account ensure_account top_up_on find_transaction post_topup
    posting update_account settle insert_transaction
top_up_credits_again_example = top_up_credits_again start payment paid_mutation paid "t9" 7 refl

price_bounds_example : (25 * 3 ≤ 9 * 10) × (9 * 10 ≤ (25 + 10 - 1) * 3) × (9 ≤ max_credits)
unfolding get_billing_rate price price_at ceil_div
price_bounds_example =
    price_bounds start "acme" model_gateway 25 9 gateway_rate refl (omega arith) refl

abbrev due_hold : Hold
due_hold = new_hold reservation

abbrev held_account : Account
held_account = record (new_account "acme" "org" 4) {
  available_balance = 40;
  frozen_balance = 40;
  total_topped_up = 100;
  total_consumed = 20;
  version = 4;
}

abbrev held_ledger : Ledger
held_ledger = record start {
  accounts =
      λ c o. some (record held_account { available_balance = 60; total_consumed = 0; version = 3 });
  holds = due_hold ∷ [];
}

abbrev used_ledger : Ledger
used_ledger = after held_ledger (consume_credits held_ledger usage)

-- The customer's own consumption took the key of the hold's expiry.
expiry_blocked_example :
    release_expired_holds (λ x y. false) (λ x. x) used_ledger "acme" 60 ≡ (err reused, used_ledger)
unfolding list_expired_holds find_hold find_transaction consume_credits catching open_account
    ensure_account post_consumption posting update_account settle insert_transaction
expiry_blocked_example =
    expiry_blocked (λ x y. false) (λ x. x) held_ledger used_ledger usage
      (record {
        account = held_account;
        transaction = consume_transaction usage held_account;
        replayed = false;
      })
      60 due_hold [] refl refl refl refl refl

abbrev clashing : HoldRequest
clashing = record reservation { idempotency_key = "pay-1" }

create_credit_hold_clash_example :
    create_credit_hold paid clashing ≡ err (database unique_violation)
unfolding top_up_credits catching open_account ensure_account top_up_on find_transaction post_topup
    posting update_account settle insert_transaction
create_credit_hold_clash_example =
    create_credit_hold_clash paid clashing paid_account (topup_transaction payment paid_account)
      refl refl refl refl
