-- ===== src/Billing/Replays.antt =====
-- What the idempotency keys guarantee.
use otto_control.Prelude.{
  ℕ, String, ===_refl, true, some, List, ◌≡◌, refl, ap, arith, any, Option-cases, Bool-cases, inl,
  inr,
}
use mathlib.Core.Path.{subst}
use otto_control.Errors.{Result, ok, ok_inj, >>=-eq-ok}
use otto_control.Billing.Records.{Account, Hold, Transaction}
use otto_control.Billing.Tables.{
  Ledger, Change, is_keyed, find_transaction, insert_transaction, clashes, catching, update_account,
  ensure_account,
}
use otto_control.Billing.Post.{
  Mutation, settle, posting, open_account, found, found-eq-ok, no_customer,
}
use otto_control.Billing.TopUps.{
  TopUp, top_up_credits, top_up_on, post_topup, replay_topup, is_topup_of, topup_change,
  topup_transaction,
}
use otto_control.Billing.Preserve.{catching-eq-ok}

settle_found :
    (l : Ledger) (c o key : String) (a : Account) (hs : List Hold) (t : Transaction) {l' : Ledger}
    → is_keyed c o key t ≡ true
    → settle l c o a hs t ≡ ok l'
    → (l'.accounts c o ≡ some a) × (find_transaction l' c o key ≡ some t)
unfolding settle insert_transaction find_transaction
settle_found l c o key a hs t keyed e = elim (Bool-cases (any (clashes t) l.transactions)) [
  | inl clash ↦ cc (rw clash at e)
  | inr fresh ↦
      let same = ok_inj (rw fresh at e) in
      (rw (← same, ===_refl c, ===_refl o) refl, rw (← same, keyed) refl)
]

-- After a posting its account's row and its transaction are found.
pub posting_found :
    {R : Type 0} (l : Ledger) (c o key : String) (current : Account) (d : Change) (now : ℕ)
    (holds : Result (List Hold)) (t : Account → Transaction) (r : Account → R) {x : R} {l' : Ledger}
    → ((a : Account) → is_keyed c o key (t a) ≡ true)
    → posting l c o current d now holds t r ≡ ok (x, l')
    → (a : Account) × (r a ≡ x)
      × (l'.accounts c o ≡ some a)
      × (find_transaction l' c o key ≡ some (t a))
unfolding posting
posting_found l c o key current d now holds t r {x} {l'} keyed e =
    let (a, p, q) = >>=-eq-ok (update_account current d now) _ e in
    let (hs, p1, q1) = >>=-eq-ok holds _ q in
    let (l1, p2, q2) = >>=-eq-ok (settle l c o a hs (t a)) _ q1 in
    let same : l1 ≡ l' = ap (λ y. y.1) (ok_inj q2) in
    let (row, there) = settle_found l c o key a hs (t a) (keyed a) p2 in
    (
      a,
      ap (λ y. y.0) (ok_inj q2),
      subst (λ (y : Ledger). y.accounts c o ≡ some a) same row,
      subst (λ y. find_transaction y c o key ≡ some (t a)) same there,
    )

pub open_account_row :
    (l : Ledger) (c o : String) (now : ℕ) {a : Account} {l' : Ledger}
    → open_account l c o now ≡ ok (a, l')
    → l'.accounts c o ≡ some a
unfolding open_account
open_account_row l c o now {a} {l'} e =
    let (l1, p, q) = >>=-eq-ok (ensure_account l c o now) _ e in
    let (a1, there, q') = >>=-eq-ok (found (l1.accounts c o) no_customer) _ q in
    let row = found-eq-ok (l1.accounts c o) no_customer there in
    subst (λ (y : Account × Ledger). y.1.accounts c o ≡ some y.0) (ok_inj q') row

-- An account that there is is opened as it is.
pub open_account_there :
    (l : Ledger) (c o : String) (now : ℕ) {a : Account}
    → l.accounts c o ≡ some a
    → open_account l c o now ≡ ok (a, l)
unfolding open_account ensure_account
open_account_there l c o now there = ground arith

-- What a successful top-up leaves in the ledger, posted now or before.
record Recorded (i : TopUp) (r : Mutation) (l : Ledger) : Type 0 where
  row : l.accounts i.customer_id i.organization_id ≡ some r.account
  there : find_transaction l i.customer_id i.organization_id i.idempotency_key ≡ some r.transaction
  same : is_topup_of i r.transaction ≡ true

replay_topup-Recorded :
    (l : Ledger) (a : Account) (i : TopUp) (t : Transaction) (r : Mutation) (l' : Ledger)
    → l.accounts i.customer_id i.organization_id ≡ some a
    → find_transaction l i.customer_id i.organization_id i.idempotency_key ≡ some t
    → replay_topup l a i t ≡ ok (r, l')
    → Recorded i r l'
unfolding replay_topup
replay_topup-Recorded l a i t r l' row there e = elim (Bool-cases (is_topup_of i t)) [
  | inr other ↦ cc (rw other at e)
  | inl same ↦
      subst (λ (y : Mutation × Ledger). Recorded i y.0 y.1) (ok_inj (rw same at e))
        (record { row = row; there = there; same = same })
]

post_topup-Recorded :
    (l : Ledger) (a : Account) (i : TopUp) (r : Mutation) (l' : Ledger)
    → post_topup l a i ≡ ok (r, l')
    → Recorded i r l'
unfolding post_topup
post_topup-Recorded l a i r l' e =
    let (a1, is, row, there) =
      posting_found l i.customer_id i.organization_id i.idempotency_key a (topup_change i)
        i.occurred_at (ok l.holds) (topup_transaction i) _
        (λ a1.
          rw (===_refl i.customer_id, ===_refl i.organization_id, ===_refl i.idempotency_key) refl)
        e in
    subst (λ y. Recorded i y l') is
      (record { row = row; there = there; same = rw (===_refl i.reference_id) (ground arith) })

top_up_credits-Recorded :
    (l : Ledger) (i : TopUp) (r : Mutation) (l' : Ledger)
    → top_up_credits l i ≡ ok (r, l')
    → Recorded i r l'
unfolding top_up_credits top_up_on
top_up_credits-Recorded l i r l' e =
    let (x, p, q) =
      >>=-eq-ok (open_account l i.customer_id i.organization_id i.occurred_at) _
        (catching-eq-ok true true _ e) in
    let row = open_account_row l i.customer_id i.organization_id i.occurred_at p in
    elim (Option-cases (find_transaction x.1 i.customer_id i.organization_id i.idempotency_key)) [
      | inr (t, there) ↦
          replay_topup-Recorded x.1 x.0 i t r l' row there (rw (there, top_up_on) at q)
      | inl fresh ↦ post_topup-Recorded x.1 x.0 i r l' (rw (fresh, top_up_on) at q)
    ]

-- A top-up that is sent again, under the same key and with the same terms, posts nothing: it
-- returns the first transaction and leaves the ledger as it is.
pub top_up_credits_again :
    (l : Ledger) (i : TopUp) (r : Mutation) (l' : Ledger) (id : String) (now : ℕ)
    → top_up_credits l i ≡ ok (r, l')
    → top_up_credits l' (record i { transaction_id = id; occurred_at = now })
      ≡ ok (record r { replayed = true }, l')
unfolding top_up_credits top_up_on replay_topup catching
top_up_credits_again l i r l' id now e =
    let w = top_up_credits-Recorded l i r l' e in
    let opened = open_account_there l' i.customer_id i.organization_id now w.row in
    rw (opened, top_up_on, w.there, w.same) refl
