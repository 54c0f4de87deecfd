-- ===== src/Billing/Post.antt =====
-- What the credit operations of `PostgresControlStore` (src/storage/postgres-store.ts) share: their
-- results, and the writes with which each ends.
use otto_control.Prelude.{ℕ, ◌≡◌, String, Bool, Option, none, some}
use otto_control.Errors.{Result, ok, err, Failure, type_error, conflict, ◌>>=◌}
use otto_control.Billing.Records.{Account, Hold, Transaction, Metadata}
use otto_control.Billing.Tables.{
  Change, update_account, ensure_account, Ledger, put_account, insert_transaction,
}
use mathlib.Core.List.{List}

pub record Mutation : Type 0 where
  pub account : Account
  pub transaction : Transaction
  pub replayed : Bool

pub record HoldMutation : Type 0 where
  pub account : Account
  pub hold : Hold
  pub transaction : Transaction
  pub replayed : Bool

abbrev pub no_metadata : Metadata
no_metadata = record {
  hold_id = none;
  execution_receipt_id = none;
  receipt_verification_status = none;
  other = List.[];
}

abbrev pub reused : Failure
reused = conflict "idempotency key was already used for a different operation"

abbrev pub no_customer : Failure
no_customer = conflict "customer does not exist"

abbrev pub found {ℓ} : {A : Type ℓ} → Option A → Failure → Result A
found none e = err e
found (some a) e = ok a

-- The last statements of every operation: the account's row and the holds as they are now, and
-- the transaction inserted.
unfoldable pub settle : Ledger → String → String → Account → List Hold → Transaction → Result Ledger
settle l c o a hs t = do
  ts ← insert_transaction t l.transactions
  ok (record l { accounts = put_account l c o a; holds = hs; transactions = ts })

-- A read of `rows[0]!` where there is no row: a TypeError, which is no `ControlPlaneError`.
abbrev pub missing_row : Failure
missing_row = type_error

-- The statements that `topUpCredits`, `createCreditHold` and `consumeCredits` begin with: the
-- account is created if there is none, and its row is read.
unfoldable pub open_account : Ledger → String → String → ℕ → Result (Account × Ledger)
open_account l c o now = do
  l' ← ensure_account l c o now
  current ← found (l'.accounts c o) no_customer
  ok (current, l')

-- An update of the account, the write to the holds, and the writes that end the operation.
unfoldable pub posting :
    {R : Type 0}
    → Ledger
    → String
    → String
    → Account
    → Change
    → ℕ
    → Result (List Hold)
    → (Account → Transaction)
    → (Account → R)
    → Result (R × Ledger)
posting l c o current d now holds t r = do
  account ← update_account current d now
  hs ← holds
  l' ← settle l c o account hs (t account)
  ok (r account, l')

pub found-eq-ok {ℓ} :
    {A : Type ℓ} (o : Option A) (e : Failure) {a : A} → found o e ≡ ok a → o ≡ some a
found-eq-ok none e h = cc
found-eq-ok (some b) e h = cc
