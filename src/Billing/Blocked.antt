-- ===== src/Billing/Blocked.antt =====
-- An idempotency key that a customer takes from the automatic expiry: `#releaseExpiredHolds` of
-- src/modules/billing/service.ts after `consumeCredits` of src/storage/postgres-store.ts.
use otto_control.Prelude.{
  ℕ, String, ===_refl, Bool, true, false, some, List, ◌∷◌, ◌≡◌, refl, arith, leb, Option-cases,
  Bool-cases, inl, inr,
}
use Prim.Native.String.{◌++◌}
use mathlib.Core.Path.{subst}
use otto_control.Errors.{ok, err, ok_inj, >>=-eq-ok}
use otto_control.Billing.Records.{Account, Hold, Transaction, consume, release}
use otto_control.Billing.Tables.{Ledger, find_transaction, catching, find_hold, is_kind}
use otto_control.Billing.Post.{Mutation, open_account, reused}
use otto_control.Billing.Charges.{
  Consumption, consume_credits, post_consumption, replay, is_consumption_of, consume_change,
  consume_transaction,
}
use otto_control.Billing.Captures.{release_credit_hold, with_hold, replay_on_hold}
use otto_control.Billing.Expiry.{list_expired_holds, release_expired_holds, release_each, message}
use otto_control.Billing.Preserve.{catching-eq-ok}
use otto_control.Billing.Replays.{posting_found, open_account_row}

-- What a successful consumption leaves in the ledger, posted now or before.
record Consumed (i : Consumption) (l : Ledger) : Type 0 where
  account : Account
  transaction : Transaction
  row : l.accounts i.customer_id i.organization_id ≡ some account
  there : find_transaction l i.customer_id i.organization_id i.idempotency_key ≡ some transaction
  kind : is_kind transaction.kind consume ≡ true

replay-Consumed :
    (l : Ledger) (a : Account) (i : Consumption) (t : Transaction) (r : Mutation) (l' : Ledger)
    → l.accounts i.customer_id i.organization_id ≡ some a
    → find_transaction l i.customer_id i.organization_id i.idempotency_key ≡ some t
    → replay l a (is_consumption_of i t) t ≡ ok (r, l')
    → Consumed i l'
unfolding replay
replay-Consumed l a i t r l' row there e = elim (Bool-cases (is_consumption_of i t)) [
  | inr other ↦ cc (rw other at e)
  | inl same ↦
      subst (λ (y : Mutation × Ledger). Consumed i y.1) (ok_inj (rw same at e))
        (record {
          account = a;
          transaction = t;
          row = row;
          there = there;
          kind = ground (arith, same);
        })
]

post_consumption-Consumed :
    (l : Ledger) (a : Account) (i : Consumption) (r : Mutation) (l' : Ledger)
    → post_consumption l a i ≡ ok (r, l')
    → Consumed i l'
unfolding post_consumption
post_consumption-Consumed l a i r l' e = elim (Bool-cases (leb i.amount a.available_balance)) [
  | inr short ↦ cc (rw (short, post_consumption) at e)
  | inl enough ↦
      let (a1, is, row, there) =
        posting_found l i.customer_id i.organization_id i.idempotency_key a (consume_change i)
          i.occurred_at (ok l.holds) (consume_transaction i) _
          (λ a1.
            rw (===_refl i.customer_id, ===_refl i.organization_id, ===_refl i.idempotency_key)
              refl)
          (rw (enough, post_consumption) at e) in
      record {
        account = a1;
        transaction = consume_transaction i a1;
        row = row;
        there = there;
        kind = refl;
      }
]

consume_credits-Consumed :
    (l : Ledger) (i : Consumption) (r : Mutation) (l' : Ledger)
    → consume_credits l i ≡ ok (r, l')
    → Consumed i l'
unfolding consume_credits
consume_credits-Consumed l i r l' e =
    let (x, p, q) =
      >>=-eq-ok (open_account l i.customer_id i.organization_id i.occurred_at) _
        (catching-eq-ok true true _ e) in
    let row = open_account_row l i.customer_id i.organization_id i.occurred_at p in
    elim (Option-cases (find_transaction x.1 i.customer_id i.organization_id i.idempotency_key)) [
      | inr (t, there) ↦ replay-Consumed x.1 x.0 i t r l' row there (rw there at q)
      | inl fresh ↦ post_consumption-Consumed x.1 x.0 i r l' (rw fresh at q)
    ]

consume_is_no_release :
    (t : Transaction) → is_kind t.kind consume ≡ true → is_kind t.kind release ≡ false
consume_is_no_release t h = ground (arith, h)

module _ (text_lt : String → String → Bool) (transaction_id : String → String) where
  -- After a customer has consumed credits under the key `expiry:<hold>` of one of the account's
  -- holds, the sweep of expired holds fails with a conflict and changes nothing, at whatever time
  -- it runs, where that hold is the first due and is the one stored under its id.
  pub expiry_blocked :
      (l l' : Ledger) (i : Consumption) (r : Mutation) (now : ℕ) (h : Hold) (hs : List Hold)
      → consume_credits l i ≡ ok (r, l')
      → i.idempotency_key ≡ "expiry:" ++ h.id
      → i.organization_id ≡ h.organization_id
      → list_expired_holds text_lt transaction_id l' i.customer_id now 100 ≡ h ∷ hs
      → find_hold h.id i.customer_id l'.holds ≡ some h
      → release_expired_holds text_lt transaction_id l' i.customer_id now ≡ (err reused, l')
  unfolding release_expired_holds release_each release_credit_hold with_hold replay_on_hold catching
      message
  expiry_blocked l l' i r now h hs done named owned due there =
      let c = consume_credits-Consumed l i r l' done in
      let row : l'.accounts i.customer_id h.organization_id ≡ some c.account = rw (← owned) c.row in
      let taken : find_transaction l' i.customer_id h.organization_id ("expiry:" ++ h.id)
          ≡ some c.transaction =
        rw (← owned, ← named) c.there in
      let other = consume_is_no_release c.transaction c.kind in
      rw (due, release_each, there, row, taken, other)
