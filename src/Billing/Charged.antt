-- ===== src/Billing/Charged.antt =====
-- Top-ups, charges and refunds keep the ledger sound.
use otto_control.Prelude.{
  ◌+◌, ◌≤◌, String, ◌===◌, true, ◌&&◌, some, ◌≡◌, refl, arith, Bool-cases, inl, inr, leb→le,
  le-total-find, find_sound, ===_eq, leb,
}
use native.Mathlib.Nat.{le_trans}
use otto_control.Errors.{ok, ensure-eq-ok}
use otto_control.Billing.Records.{Account, Transaction}
use otto_control.Billing.Tables.{Ledger, refund_part, refunded_total}
use otto_control.Billing.Post.{Mutation}
use otto_control.Billing.TopUps.{TopUp, post_topup, topup_change, topup_transaction}
use otto_control.Billing.Charges.{
  Consumption, post_consumption, consume_transaction, consume_change, Refund, post_refund,
  refund_transaction, refund_change, find_original, find_by_id, is_charge,
}
use otto_control.Billing.Sums.{charged, charged_part}
use otto_control.Billing.Sound.{IsSound}
use otto_control.Billing.Settle.{Fits}
use otto_control.Billing.Preserve.{posting-IsSound}

topup-Fits :
    (i : TopUp) (a : Account)
    → Fits i.customer_id i.organization_id (topup_change i) (topup_transaction i a)
topup-Fits i a = record {
  customer = refl;
  organization = refl;
  available = omega arith;
  frozen = omega arith;
  charge = refl;
  refund = refl;
  level = omega arith;
}

consume-Fits :
    (i : Consumption) (a : Account)
    → Fits i.customer_id i.organization_id (consume_change i) (consume_transaction i a)
consume-Fits i a = record {
  customer = refl;
  organization = refl;
  available = ground arith;
  frozen = omega arith;
  charge = refl;
  refund = refl;
  level = omega arith;
}

refund-Fits :
    (i : Refund) (original : Transaction) (o : String) (a : Account)
    → Fits i.customer_id o (refund_change i) (refund_transaction i original o a)
refund-Fits i original o a = record {
  customer = refl;
  organization = refl;
  available = omega arith;
  frozen = omega arith;
  charge = refl;
  refund = refl;
  level = omega arith;
}

pub post_topup-IsSound :
    (l : Ledger) (current : Account) (i : TopUp) {r : Mutation} {l' : Ledger}
    → IsSound l
    → l.accounts i.customer_id i.organization_id ≡ some current
    → post_topup l current i ≡ ok (r, l')
    → IsSound l'
unfolding post_topup
post_topup-IsSound l current i s row e =
    posting-IsSound l i.customer_id i.organization_id current (topup_change i) i.occurred_at
      (ok l.holds) l.holds (topup_transaction i) _ s row refl (topup-Fits i) (λ c' o'. refl)
      s.distinct (λ a id. ground (arith, s.refundable id)) e

pub post_consumption-IsSound :
    (l : Ledger) (current : Account) (i : Consumption) {r : Mutation} {l' : Ledger}
    → IsSound l
    → l.accounts i.customer_id i.organization_id ≡ some current
    → post_consumption l current i ≡ ok (r, l')
    → IsSound l'
unfolding post_consumption
post_consumption-IsSound l current i s row e =
    posting-IsSound l i.customer_id i.organization_id current (consume_change i) i.occurred_at
      (ok l.holds) l.holds (consume_transaction i) _ s row refl (consume-Fits i) (λ c' o'. refl)
      s.distinct (λ a id. ground (arith, s.refundable id))
      (ensure-eq-ok (leb i.amount current.available_balance) _ _ e).1

-- The original of a refund is a charge under the id that the refund names.
pub find_original_sound :
    (l : Ledger) (i : Refund) {t : Transaction} {o : String}
    → find_original l i ≡ some (t, o)
    → (find_by_id i.related_transaction_id i.customer_id l ≡ some t)
      × (is_charge t ≡ true)
      × (t.organization_id ≡ some o)
unfolding find_original
find_original_sound l i {t} {o} e = ground arith

charge_in_sum :
    (l : Ledger) (i : Refund) {t : Transaction}
    → find_by_id i.related_transaction_id i.customer_id l ≡ some t
    → is_charge t ≡ true
    → t.billed_amount ≤ charged i.related_transaction_id l.transactions
unfolding find_by_id charged
charge_in_sum l i {t} found is =
    let p =
      λ (t : Transaction). t.id === i.related_transaction_id && t.customer_id === i.customer_id in
    ground (
      arith,
      find_sound p l.transactions {x = t} found,
      le-total-find (charged_part i.related_transaction_id) p l.transactions {x = t} found,
    )

-- The refunds of a charge and the new one stay within it.
refund_room :
    (l : Ledger) (i : Refund) (original : Transaction) (o : String)
    → IsSound l
    → find_original l i ≡ some (original, o)
    → refunded_total i.related_transaction_id l.transactions + i.amount ≤ original.billed_amount
    → (a : Account) (id : String)
    → refund_part id (refund_transaction i original o a) + refunded_total id l.transactions
      ≤ charged_part id (refund_transaction i original o a) + charged id l.transactions
refund_room l i original o s found room a id =
    let (by_id, is, _) = find_original_sound l i found in
    let billed = charge_in_sum l i by_id is in
    elim (Bool-cases (i.related_transaction_id === id)) [
      | inr other ↦ rw other (ground (arith, s.refundable id))
      | inl own ↦
          let same = ===_eq i.related_transaction_id id own in
          let sums = rw same at (le_trans room billed) in rw own (ground (arith, sums))
    ]

pub post_refund-IsSound :
    (l : Ledger) (current : Account) (i : Refund) (original : Transaction) (o : String)
    {r : Mutation} {l' : Ledger}
    → IsSound l
    → l.accounts i.customer_id o ≡ some current
    → find_original l i ≡ some (original, o)
    → post_refund l current i original o ≡ ok (r, l')
    → IsSound l'
unfolding post_refund
post_refund-IsSound l current i original o s row found e =
    let (room, e') = ensure-eq-ok (leb _ original.billed_amount) _ _ e in
    posting-IsSound l i.customer_id o current (refund_change i) i.occurred_at (ok l.holds) l.holds
      (refund_transaction i original o) _ s row refl (refund-Fits i original o) (λ c' o'. refl)
      s.distinct (refund_room l i original o s found (leb→le _ _ room)) e'
