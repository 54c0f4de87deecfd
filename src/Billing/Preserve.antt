-- ===== src/Billing/Preserve.antt =====
-- The steps that the operations share keep the ledger sound.
use otto_control.Prelude.{
  ℕ, ◌+◌, ◌≤◌, String, ◌===◌, Bool, none, some, List, ◌≡◌, ap, any, Bool-cases, Option-cases, inl,
  inr,
}
use mathlib.Core.Path.{subst}
use otto_control.Errors.{
  database, foreign_key_violation, check_violation, Result, ok, err, ok_inj, >>=-eq-ok,
}
use otto_control.Billing.Records.{Account, Hold, Transaction}
use otto_control.Billing.Tables.{
  Ledger, Change, is_key, ensure_account, put_account, new_account, refund_part, refunded_total,
  catching, update_account,
}
use otto_control.Billing.Post.{found, no_customer, found-eq-ok, posting, settle, open_account}
use otto_control.Billing.Sums.{when, held, charged, charged_part, copies}
use otto_control.Billing.Sound.{Agrees, IsSound}
use otto_control.Billing.Settle.{Fits, key_cases, settle-IsSound}

-- What a handler of database errors lets through is a success.
pub catching-eq-ok {ℓ} :
    {A : Type ℓ} (fk check : Bool) (m : Result A) {a : A} → catching fk check m ≡ ok a → m ≡ ok a
unfolding catching
catching-eq-ok fk check (ok a) e = e
catching-eq-ok fk check (err (database foreign_key_violation)) e = cc
catching-eq-ok fk check (err (database check_violation)) e = cc
catching-eq-ok fk check (err _) e = cc

-- A row of zeros agrees with the postings as no row does.
new_account-Agrees :
    (l : Ledger) (c o : String) (now : ℕ)
    → IsSound l
    → l.accounts c o ≡ none
    → (c' o' : String)
    → Agrees c' o' (put_account l c o (new_account c o now) c' o') l.holds l.transactions
new_account-Agrees l c o now s absent c' o' = elim (key_cases c o c' o') [
  | inl other ↦ rw other (s.agrees c' o')
  | inr (own, same_c, same_o) ↦
      let row : l.accounts c' o' ≡ none = rw (← same_c, ← same_o) absent in
      let g : Agrees c' o' none l.holds l.transactions = rw row at (s.agrees c' o') in
      rw own (record {
        balanced = g.balanced;
        frozen_held = g.frozen_held;
        available_posted = g.available_posted;
        frozen_posted = g.frozen_posted;
        consumed_posted = g.consumed_posted;
        refunded_posted = g.refunded_posted;
      })
]

ensure_account-IsSound :
    (l : Ledger) (c o : String) (now : ℕ) {l' : Ledger}
    → IsSound l
    → ensure_account l c o now ≡ ok l'
    → IsSound l'
unfolding ensure_account
ensure_account-IsSound l c o now {l'} s e = elim (Option-cases (l.accounts c o)) [
  | inr (a, there) ↦ subst IsSound (ok_inj (rw (there, ensure_account) at e)) s
  | inl absent ↦ elim (Bool-cases (any (λ x. x === c) l.customers)) [
    | inr stranger ↦ cc (rw (absent, stranger, ensure_account) at e)
    | inl customer ↦ subst IsSound (ok_inj (rw (absent, customer, ensure_account) at e)) (record {
      agrees = new_account-Agrees l c o now s absent;
      distinct = s.distinct;
      refundable = s.refundable;
    })
  ]
]

-- The account that an operation opens is a row of a sound ledger.
pub open_account-IsSound :
    (l : Ledger) (c o : String) (now : ℕ) {a : Account} {l' : Ledger}
    → IsSound l
    → open_account l c o now ≡ ok (a, l')
    → IsSound l' × (l'.accounts c o ≡ some a)
unfolding open_account
open_account-IsSound l c o now {a} {l'} s e =
    let (l1, p, q) = >>=-eq-ok (ensure_account l c o now) _ e in
    let (a1, there, q') = >>=-eq-ok (found (l1.accounts c o) no_customer) _ q in
    let same_l : l1 ≡ l' = ap (λ x. x.1) (ok_inj q') in
    let same_a : a1 ≡ a = ap (λ x. x.0) (ok_inj q') in
    (
      subst IsSound same_l (ensure_account-IsSound l c o now s p),
      rw (← same_l, ← same_a) (found-eq-ok (l1.accounts c o) no_customer there),
    )

pub posting-IsSound :
    {R : Type 0} (l : Ledger) (c o : String) (current : Account) (d : Change) (now : ℕ)
    (holds : Result (List Hold)) (hs : List Hold) (t : Account → Transaction) (r : Account → R)
    {x : R} {l' : Ledger}
    → IsSound l
    → l.accounts c o ≡ some current
    → holds ≡ ok hs
    → ((a : Account) → Fits c o d (t a))
    → ((c' o' : String)
        → held c' o' hs + when (is_key c o c' o') d.frozen_minus
          ≡ held c' o' l.holds + when (is_key c o c' o') d.frozen_plus)
    → ((id : String) → copies id hs ≤ 1)
    → ((a : Account) (id : String)
        → refund_part id (t a) + refunded_total id l.transactions
          ≤ charged_part id (t a) + charged id l.transactions)
    → posting l c o current d now holds t r ≡ ok (x, l')
    → IsSound l'
unfolding posting
posting-IsSound l c o current d now holds hs t r {x} {l'} s row hs_ok fits move distinct refundable
      e =
    let (a, p, q) = >>=-eq-ok (update_account current d now) _ (rw hs_ok at e) in
    let (l1, p', q') = >>=-eq-ok (settle l c o a hs (t a)) _ q in
    subst IsSound (ap (λ y. y.1) (ok_inj q')) (
      settle-IsSound l c o current a d now hs (t a) s row p (fits a) move distinct (refundable a)
        p')

-- An operation that succeeds has written its holds.
pub posting-holds :
    {R : Type 0} (l : Ledger) (c o : String) (current : Account) (d : Change) (now : ℕ)
    (holds : Result (List Hold)) (t : Account → Transaction) (r : Account → R) {x : R × Ledger}
    → posting l c o current d now holds t r ≡ ok x
    → (hs : List Hold) × (holds ≡ ok hs)
unfolding posting
posting-holds l c o current d now holds t r e =
    let (a, p, q) = >>=-eq-ok (update_account current d now) _ e in
    let (hs, p', q') = >>=-eq-ok holds _ q in (hs, p')
