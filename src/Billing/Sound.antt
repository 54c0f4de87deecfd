-- ===== src/Billing/Sound.antt =====
-- When a ledger is sound, and that the writes which end every operation keep it so.
use otto_control.Prelude.{ℕ, ◌+◌, ◌≤◌, String, Option, none, some, List, ◌≡◌}
use otto_control.Billing.Records.{Account, Hold, Transaction}
use otto_control.Billing.Tables.{Ledger, refunded_total}
use otto_control.Billing.Sums.{
  held, posted, available_in, available_out, frozen_in, frozen_out, charge_of, refund_of, charged,
  copies,
}

-- A column of an account that may be absent.
abbrev pub column : (Account → ℕ) → Option Account → ℕ
column f none = 0
column f (some a) = f a

-- What the row of one account says agrees with the postings and the holds.
pub record Agrees (c o : String) (row : Option Account) (hs : List Hold) (ts : List Transaction)
    : Type 0 where
  pub balanced :
      column Account.available_balance row
        + column Account.frozen_balance row
        + column Account.total_consumed row
      ≡ column Account.total_topped_up row + column Account.total_refunded row
  pub frozen_held : column Account.frozen_balance row ≡ held c o hs
  pub available_posted :
      column Account.available_balance row + posted available_out c o ts
      ≡ posted available_in c o ts
  pub frozen_posted :
      column Account.frozen_balance row + posted frozen_out c o ts ≡ posted frozen_in c o ts
  pub consumed_posted : column Account.total_consumed row ≡ posted charge_of c o ts
  pub refunded_posted : column Account.total_refunded row ≡ posted refund_of c o ts

pub record IsSound (l : Ledger) : Type 0 where
  pub agrees : (c o : String) → Agrees c o (l.accounts c o) l.holds l.transactions
  pub distinct : (id : String) → copies id l.holds ≤ 1
  pub refundable : (id : String) → refunded_total id l.transactions ≤ charged id l.transactions
