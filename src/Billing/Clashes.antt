-- ===== src/Billing/Clashes.antt =====
-- An idempotency key that another operation of the account has used.
use otto_control.Prelude.{
  String, ◌===◌, true, none, some, List, [], ◌∷◌, find, any, leb, ltb, if◌then◌else◌, Bool-cases,
  inl, inr, ◌≡◌, arith, refl,
}
use otto_control.Errors.{err, conflict, database, unique_violation, check_violation}
use otto_control.Billing.Records.{Account, Transaction}
use otto_control.Billing.Tables.{
  Ledger, hold_clashes, passes_checks, changed_account, update_account, insert_hold,
  find_transaction, insert_transaction, is_keyed, clashes, catching,
}
use otto_control.Billing.Post.{posting, settle}
use otto_control.Billing.Holds.{
  HoldRequest, create_credit_hold, create_hold_on, post_hold, is_hold_keyed, freeze_change,
  freeze_transaction, new_hold,
}
use otto_control.Billing.Replays.{open_account_there}

keyed_clashes :
    (c o key : String) (t u : Transaction) (ts : List Transaction)
    → t.customer_id ≡ c
    → t.organization_id ≡ some o
    → t.idempotency_key ≡ key
    → find (is_keyed c o key) ts ≡ some u
    → any (clashes t) ts ≡ true
keyed_clashes c o key t u [] pc po pk e = absurd (ground (arith, e))
keyed_clashes c o key t u (x ∷ ts) pc po pk e = elim (Bool-cases (is_keyed c o key x)) [
  | inl h ↦
      let same : clashes t x ≡ true =
        rw (pc, po, pk) (ground (arith, h, Bool-cases (x.id === t.id))) in
      rw same refl
  | inr h ↦
      let rest = keyed_clashes c o key t u ts pc po pk (rw h at e) in
      elim (Bool-cases (clashes t x)) [ inl q ↦ rw q refl | inr q ↦ rw q rest ]
]

-- A hold of a positive amount that is asked for under a key which some transaction of the account
-- has, but no hold, always fails: with the conflict on credits where they do not suffice, and else
-- with a raw failure of the database, the unique violation unless the account's row leaves its
-- limits.
pub create_credit_hold_clash :
    (l : Ledger) (i : HoldRequest) (a : Account) (u : Transaction)
    → l.accounts i.customer_id i.organization_id ≡ some a
    → find (is_hold_keyed i.customer_id i.organization_id i.idempotency_key) l.holds ≡ none
    → find_transaction l i.customer_id i.organization_id i.idempotency_key ≡ some u
    → ltb 0 i.amount ≡ true
    → create_credit_hold l i
      ≡ err (
          if leb i.amount a.available_balance
          then database
              (if passes_checks a (freeze_change i) then unique_violation else check_violation)
          else conflict "insufficient available credits")
unfolding create_credit_hold create_hold_on post_hold posting settle insert_transaction
    find_transaction catching insert_hold update_account
create_credit_hold_clash l i a u row free taken positive =
    let opened = open_account_there l i.customer_id i.organization_id i.occurred_at row in
    elim (Bool-cases (leb i.amount a.available_balance)) [
      | inr short ↦ rw (opened, create_hold_on, free, post_hold, short) refl
      | inl enough ↦ elim (Bool-cases (passes_checks a (freeze_change i))) [
        | inr beyond ↦
            rw (opened, create_hold_on, free, post_hold, enough, posting, update_account, beyond)
              refl
        | inl within ↦ elim (Bool-cases (any (hold_clashes (new_hold i)) l.holds)) [
          | inl held ↦
              rw
                (
                  opened, create_hold_on, free, post_hold, enough, posting, update_account, within,
                  insert_hold, held,
                )
                refl
          | inr fresh ↦
              let clash =
                keyed_clashes i.customer_id i.organization_id i.idempotency_key
                  (freeze_transaction i (changed_account a (freeze_change i) i.occurred_at)) u
                  l.transactions refl refl refl taken in
              rw
                (
                  opened, create_hold_on, free, post_hold, enough, posting, update_account, within,
                  insert_hold, fresh, positive, settle, insert_transaction, clash,
                )
                refl
        ]
      ]
    ]
