-- ===== src/Billing/Each.antt =====
-- Each operation of the ledger that succeeds leaves a sound ledger sound.
use otto_control.Prelude.{
  String, Bool, true, false, Option, some, ◌≡◌, ap, arith, Option-cases, inl, inr, find,
}
use mathlib.Core.Path.{subst}
use otto_control.Errors.{Result, ok, ok_inj, >>=-eq-ok}
use otto_control.Billing.Records.{Account, Hold, Transaction}
use otto_control.Billing.Tables.{Ledger, find_transaction, find_hold}
use otto_control.Billing.Post.{Mutation, HoldMutation, open_account}
use otto_control.Billing.TopUps.{TopUp, top_up_credits, top_up_on, replay_topup}
use otto_control.Billing.Charges.{
  Consumption, consume_credits, replay, Refund, refund_credits, refund_on, find_original,
}
use otto_control.Billing.Holds.{
  HoldRequest, create_credit_hold, create_hold_on, replay_hold, is_hold_keyed,
}
use otto_control.Billing.Captures.{
  Capture, capture_credit_hold, replay_on_hold, Release, release_credit_hold, with_hold,
}
use otto_control.Billing.Sound.{IsSound}
use otto_control.Billing.Preserve.{catching-eq-ok, open_account-IsSound}
use otto_control.Billing.Charged.{post_topup-IsSound, post_consumption-IsSound, post_refund-IsSound}
use otto_control.Billing.Held.{post_hold-IsSound, post_capture-IsSound, post_release-IsSound}

-- A replay leaves the ledger as it is.
replay_topup-same :
    (l : Ledger) (a : Account) (i : TopUp) (t : Transaction) {r : Mutation} {l' : Ledger}
    → replay_topup l a i t ≡ ok (r, l')
    → l ≡ l'
unfolding replay_topup
replay_topup-same l a i t e = ground arith

replay-same :
    (l : Ledger) (a : Account) (same : Bool) (t : Transaction) {r : Mutation} {l' : Ledger}
    → replay l a same t ≡ ok (r, l')
    → l ≡ l'
unfolding replay
replay-same l a same t e = ground arith

replay_on_hold-same :
    (l : Ledger) (a : Account) (h : Hold) (same : Bool) (t : Transaction) {r : HoldMutation}
    {l' : Ledger}
    → replay_on_hold l a h same t ≡ ok (r, l')
    → l ≡ l'
unfolding replay_on_hold
replay_on_hold-same l a h same t e = ground arith

replay_hold-same :
    (l : Ledger) (a : Account) (i : HoldRequest) (h : Hold) {r : HoldMutation} {l' : Ledger}
    → replay_hold l a i h ≡ ok (r, l')
    → l ≡ l'
unfolding replay_hold
replay_hold-same l a i h e = ground arith

pub top_up_credits-IsSound :
    (l : Ledger) (i : TopUp) (r : Mutation) (l' : Ledger)
    → IsSound l
    → top_up_credits l i ≡ ok (r, l')
    → IsSound l'
unfolding top_up_credits top_up_on
top_up_credits-IsSound l i r l' s e =
    let (x, p, q) =
      >>=-eq-ok (open_account l i.customer_id i.organization_id i.occurred_at) _
        (catching-eq-ok true true _ e) in
    let (s1, row) = open_account-IsSound l i.customer_id i.organization_id i.occurred_at s p in
    elim (Option-cases (find_transaction x.1 i.customer_id i.organization_id i.idempotency_key)) [
      | inr (t, found) ↦
          subst IsSound (replay_topup-same x.1 x.0 i t (rw (found, top_up_on) at q)) s1
      | inl fresh ↦ post_topup-IsSound x.1 x.0 i s1 row (rw (fresh, top_up_on) at q)
    ]

pub consume_credits-IsSound :
    (l : Ledger) (i : Consumption) (r : Mutation) (l' : Ledger)
    → IsSound l
    → consume_credits l i ≡ ok (r, l')
    → IsSound l'
unfolding consume_credits
consume_credits-IsSound l i r l' s e =
    let (x, p, q) =
      >>=-eq-ok (open_account l i.customer_id i.organization_id i.occurred_at) _
        (catching-eq-ok true true _ e) in
    let (s1, row) = open_account-IsSound l i.customer_id i.organization_id i.occurred_at s p in
    elim (Option-cases (find_transaction x.1 i.customer_id i.organization_id i.idempotency_key)) [
      | inr (t, found) ↦ subst IsSound (replay-same x.1 x.0 _ t (rw found at q)) s1
      | inl fresh ↦ post_consumption-IsSound x.1 x.0 i s1 row (rw fresh at q)
    ]

pub create_credit_hold-IsSound :
    (l : Ledger) (i : HoldRequest) (r : HoldMutation) (l' : Ledger)
    → IsSound l
    → create_credit_hold l i ≡ ok (r, l')
    → IsSound l'
unfolding create_credit_hold create_hold_on
create_credit_hold-IsSound l i r l' s e =
    let (x, p, q) =
      >>=-eq-ok (open_account l i.customer_id i.organization_id i.occurred_at) _
        (catching-eq-ok true false _ e) in
    let (s1, row) = open_account-IsSound l i.customer_id i.organization_id i.occurred_at s p in
    elim (Option-cases
      (find (is_hold_keyed i.customer_id i.organization_id i.idempotency_key) x.1.holds)) [
        | inr (h, found) ↦
            subst IsSound (replay_hold-same x.1 x.0 i h (rw (found, create_hold_on) at q)) s1
        | inl fresh ↦ post_hold-IsSound x.1 x.0 i s1 row (rw (fresh, create_hold_on) at q)
      ]

-- What is done under a hold: nothing, or the body at the hold and its account.
with_hold-IsSound :
    {A : Type 0} (l : Ledger) (id c : String) (body : Hold → Account → Result (A × Ledger))
    (r : Option A) (l' : Ledger)
    → IsSound l
    → ((h : Hold) (a : Account) (x : A) (l1 : Ledger)
        → find_hold id c l.holds ≡ some h
        → l.accounts c h.organization_id ≡ some a
        → body h a ≡ ok (x, l1)
        → IsSound l1)
    → with_hold l id c body ≡ ok (r, l')
    → IsSound l'
unfolding with_hold
with_hold-IsSound l id c body r l' s keep e = elim (Option-cases (find_hold id c l.holds)) [
  | inl absent ↦ subst IsSound (ap (λ x. x.1) (ok_inj (rw (absent, with_hold) at e))) s
  | inr (h, there) ↦ elim (Option-cases (l.accounts c h.organization_id)) [
    | inl absent ↦ subst IsSound (ap (λ x. x.1) (ok_inj (rw (there, absent, with_hold) at e))) s
    | inr (a, row) ↦
        let (x, p, q) = >>=-eq-ok (body h a) _ (rw (there, row, with_hold) at e) in
        subst IsSound (ap (λ x. x.1) (ok_inj q)) (keep h a x.0 x.1 there row p)
  ]
]

pub capture_credit_hold-IsSound :
    (l : Ledger) (i : Capture) (r : Option HoldMutation) (l' : Ledger)
    → IsSound l
    → capture_credit_hold l i ≡ ok (r, l')
    → IsSound l'
unfolding capture_credit_hold
capture_credit_hold-IsSound l i r l' s e =
    with_hold-IsSound l i.hold_id i.customer_id _ r l' s
      (λ h a x l1 there row p.
        elim (Option-cases (find_transaction l i.customer_id h.organization_id i.idempotency_key)) [
          | inr (t, found) ↦ subst IsSound (replay_on_hold-same l a h _ t (rw found at p)) s
          | inl fresh ↦ post_capture-IsSound l a i h s there row (rw fresh at p)
        ])
      (catching-eq-ok false true _ e)

pub release_credit_hold-IsSound :
    (l : Ledger) (i : Release) (r : Option HoldMutation) (l' : Ledger)
    → IsSound l
    → release_credit_hold l i ≡ ok (r, l')
    → IsSound l'
unfolding release_credit_hold
release_credit_hold-IsSound l i r l' s e =
    with_hold-IsSound l i.hold_id i.customer_id _ r l' s
      (λ h a x l1 there row p.
        elim (Option-cases (find_transaction l i.customer_id h.organization_id i.idempotency_key)) [
          | inr (t, found) ↦ subst IsSound (replay_on_hold-same l a h _ t (rw found at p)) s
          | inl fresh ↦ post_release-IsSound l a i h s there row (rw fresh at p)
        ])
      (catching-eq-ok false false _ e)

refund_on-IsSound :
    (l : Ledger) (a : Account) (i : Refund) (original : Transaction) (o : String) {r : Mutation}
    {l' : Ledger}
    → IsSound l
    → l.accounts i.customer_id o ≡ some a
    → find_original l i ≡ some (original, o)
    → refund_on l a i original o ≡ ok (r, l')
    → IsSound l'
unfolding refund_on
refund_on-IsSound l a i original o s row there e =
    elim (Option-cases (find_transaction l i.customer_id o i.idempotency_key)) [
      | inr (t, found) ↦ subst IsSound (replay-same l a _ t (rw (found, refund_on) at e)) s
      | inl fresh ↦ post_refund-IsSound l a i original o s row there (rw (fresh, refund_on) at e)
    ]

pub refund_credits-IsSound :
    (l : Ledger) (i : Refund) (r : Option Mutation) (l' : Ledger)
    → IsSound l
    → refund_credits l i ≡ ok (r, l')
    → IsSound l'
unfolding refund_credits
refund_credits-IsSound l i r l' s e =
    let e1 = catching-eq-ok false true _ e in
    elim (Option-cases (find_original l i)) [
      | inl absent ↦ subst IsSound (ap (λ x. x.1) (ok_inj (rw absent at e1))) s
      | inr (original, there) ↦ elim (Option-cases (l.accounts i.customer_id original.1)) [
        | inl absent ↦ subst IsSound (ap (λ x. x.1) (ok_inj (rw (there, absent) at e1))) s
        | inr (a, row) ↦
            let (x, p, q) =
              >>=-eq-ok (refund_on l a i original.0 original.1) _ (rw (there, row) at e1) in
            subst IsSound (ap (λ x. x.1) (ok_inj q))
              (refund_on-IsSound l a i original.0 original.1 s row there p)
      ]
    ]
