-- ===== src/Billing/Sums.antt =====
-- What the ledger's rows add up to, account by account: the two sides of the postings, the charges
-- and refunds, and the credits that active holds keep.
use otto_control.Prelude.{
  ℕ, ◌+◌, ◌≤◌, String, ◌===◌, ◌=?◌, Bool, true, false, ◌&&◌, some, List, ◌∷◌, [], pos_part,
  neg_part, total, if◌then◌else◌, ◌≡◌, refl, arith, any,
}
use otto_control.Billing.Records.{Hold, HoldStatus, Transaction, refund}
use otto_control.Billing.Tables.{is_kind, is_active, mark_hold, find_hold, hold_clashes}
use otto_control.Billing.Charges.{is_charge}

abbrev pub when : Bool → ℕ → ℕ
when b n = if b then n else 0

abbrev pub is_of : String → String → Transaction → Bool
is_of c o t = t.customer_id === c && t.organization_id =? some o

abbrev pub is_hold_of_key : String → String → Hold → Bool
is_hold_of_key c o h = h.customer_id === c && h.organization_id === o

-- The credits that the active holds of an account keep.
abbrev pub held_part : String → String → Hold → ℕ
held_part c o h = when (is_hold_of_key c o h && is_active h.status) h.amount

unfoldable pub held : String → String → List Hold → ℕ
held c o hs = total (held_part c o) hs

unfoldable pub posted : (Transaction → ℕ) → String → String → List Transaction → ℕ
posted f c o ts = total (λ t. when (is_of c o t) (f t)) ts

abbrev pub available_in : Transaction → ℕ
available_in t = pos_part t.available_delta

abbrev pub available_out : Transaction → ℕ
available_out t = neg_part t.available_delta

abbrev pub frozen_in : Transaction → ℕ
frozen_in t = pos_part t.frozen_delta

abbrev pub frozen_out : Transaction → ℕ
frozen_out t = neg_part t.frozen_delta

abbrev pub charge_of : Transaction → ℕ
charge_of t = when (is_charge t) t.billed_amount

abbrev pub refund_of : Transaction → ℕ
refund_of t = when (is_kind t.kind refund) t.billed_amount

-- The charges under one transaction id.
abbrev pub charged_part : String → Transaction → ℕ
charged_part id t = when (t.id === id) (charge_of t)

unfoldable pub charged : String → List Transaction → ℕ
charged id ts = total (charged_part id) ts

abbrev pub has_id : String → Hold → ℕ
has_id id h = when (h.id === id) 1

unfoldable pub copies : String → List Hold → ℕ
copies id hs = total (has_id id) hs

pub copies_of_find :
    (id c : String) (hs : List Hold) {h : Hold} → find_hold id c hs ≡ some h → 1 ≤ copies id hs
unfolding find_hold copies
copies_of_find id c [] {h} e = ground arith
copies_of_find id c (x ∷ hs) {h} e = ground (arith, copies_of_find id c hs {h = h})

pub copies-mark_hold :
    (k id : String) (s : HoldStatus) (now : ℕ) (hs : List Hold)
    → copies k (mark_hold id s now hs) ≡ copies k hs
unfolding mark_hold copies
copies-mark_hold k id s now [] = refl
copies-mark_hold k id s now (x ∷ hs) = ground (arith, copies-mark_hold k id s now hs)

pub copies_fresh :
    (h : Hold) (hs : List Hold) → any (hold_clashes h) hs ≡ false → copies h.id hs ≡ 0
unfolding copies
copies_fresh h [] e = refl
copies_fresh h (x ∷ hs) e = ground (arith, copies_fresh h hs)

-- A status written to an absent hold changes no sum.
held_absent :
    (c o id : String) (s : HoldStatus) (now : ℕ) (hs : List Hold)
    → copies id hs ≡ 0
    → held c o (mark_hold id s now hs) ≡ held c o hs
unfolding held mark_hold copies
held_absent c o id s now [] e = refl
held_absent c o id s now (x ∷ hs) e = ground (arith, held_absent c o id s now hs)

-- A hold that leaves the active state frees its amount, and no other.
pub held-mark_hold :
    (c o id cust : String) (s : HoldStatus) (now : ℕ) (hs : List Hold) {h : Hold}
    → find_hold id cust hs ≡ some h
    → is_active h.status ≡ true
    → is_active s ≡ false
    → copies id hs ≤ 1
    → held c o (mark_hold id s now hs) + when (is_hold_of_key c o h) h.amount ≡ held c o hs
unfolding held mark_hold copies find_hold
held-mark_hold c o id cust s now [] {h} f a b n = ground arith
held-mark_hold c o id cust s now (x ∷ hs) {h} f a b n = ground (
  arith,
  held-mark_hold c o id cust s now hs {h = h},
  held_absent c o id s now hs,
  copies_of_find id cust hs {h = h},
)
