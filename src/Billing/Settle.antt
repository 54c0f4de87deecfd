-- ===== src/Billing/Settle.antt =====
-- The writes that end every operation keep a ledger sound, where the transaction inserted fits the
-- change of the account's row and the holds.
use otto_control.Prelude.{
  ℕ, ◌+◌, ◌≤◌, String, ===_eq, ◌===◌, true, false, some, List, ◌∷◌, ◌≡◌, ◌∙◌, ◌⊎◌, sym, arith, any,
  Bool-cases, inl, inr, ===_refl,
}
use otto_control.Errors.{ok, ok_inj}
use mathlib.Core.Path.{subst}
use otto_control.Billing.Records.{Account, Hold, Transaction}
use otto_control.Billing.Tables.{
  Ledger, Change, is_key, update_account, insert_transaction, put_account, clashes, refund_part,
  refunded_total,
}
use otto_control.Billing.Post.{settle}
use otto_control.Billing.Sums.{
  when, is_of, held, posted, available_in, available_out, frozen_in, frozen_out, charge_of,
  refund_of, charged, charged_part, copies,
}
use otto_control.Billing.Sound.{Agrees, IsSound}

pub record Fits (c o : String) (d : Change) (t : Transaction) : Type 0 where
  pub customer : t.customer_id ≡ c
  pub organization : t.organization_id ≡ some o
  pub available : available_in t + d.available_minus ≡ available_out t + d.available_plus
  pub frozen : frozen_in t + d.frozen_minus ≡ frozen_out t + d.frozen_plus
  pub charge : charge_of t ≡ d.consumed
  pub refund : refund_of t ≡ d.refunded
  pub level :
      d.available_plus + d.frozen_plus + d.consumed
      ≡ d.available_minus + d.frozen_minus + d.topped_up + d.refunded

posted_skip :
    (f : Transaction → ℕ) (c o : String) (t : Transaction) (ts : List Transaction)
    → is_of c o t ≡ false
    → posted f c o (t ∷ ts) ≡ posted f c o ts
unfolding posted
posted_skip f c o t ts e = rw e (omega arith)

posted_take :
    (f : Transaction → ℕ) (c o : String) (t : Transaction) (ts : List Transaction)
    → is_of c o t ≡ true
    → posted f c o (t ∷ ts) ≡ f t + posted f c o ts
unfolding posted
posted_take f c o t ts e = rw e (omega arith)

-- The columns of an account that an `UPDATE` returned; neither balance fell below 0.
record Updated (a0 a : Account) (d : Change) : Type 0 where
  available : a.available_balance + d.available_minus ≡ a0.available_balance + d.available_plus
  frozen : a.frozen_balance + d.frozen_minus ≡ a0.frozen_balance + d.frozen_plus
  topped_up : a.total_topped_up ≡ a0.total_topped_up + d.topped_up
  consumed : a.total_consumed ≡ a0.total_consumed + d.consumed
  refunded : a.total_refunded ≡ a0.total_refunded + d.refunded

update_account-Updated :
    (a0 a : Account) (d : Change) (now : ℕ) → update_account a0 d now ≡ ok a → Updated a0 a d
unfolding update_account
update_account-Updated a0 a d now e = ground arith

-- Either the key is the account's own, or the two differ in the customer or the organization.
pub key_cases :
    (c o c' o' : String)
    → (is_key c o c' o' ≡ false) ⊎ ((is_key c o c' o' ≡ true) × (c ≡ c') × (o ≡ o'))
key_cases c o c' o' = elim (Bool-cases (c === c')) [
  | inr no_c ↦ inl (rw no_c)
  | inl is_c ↦ elim (Bool-cases (o === o')) [
    | inr no_o ↦ inl (rw (is_c, no_o))
    | inl is_o ↦ inr (rw (is_c, is_o), ===_eq c c' is_c, ===_eq o o' is_o)
  ]
]

is_of-key :
    {c o : String} {d : Change} {t : Transaction} (c' o' : String)
    → Fits c o d t
    → is_of c' o' t ≡ is_key c o c' o'
is_of-key c' o' f = rw (f.customer, f.organization)

module _ (l : Ledger) (c o : String) (a0 a : Account) (d : Change) (now : ℕ) (hs : List Hold)
    (t : Transaction) (sound : IsSound l) (row : l.accounts c o ≡ some a0)
    (updated : update_account a0 d now ≡ ok a) (fits : Fits c o d t)
    (holds_move : (c' o' : String)
      → held c' o' hs + when (is_key c o c' o') d.frozen_minus
        ≡ held c' o' l.holds + when (is_key c o c' o') d.frozen_plus) where
  post_other :
      (c' o' : String)
      → is_key c o c' o' ≡ false
      → Agrees c' o' (put_account l c o a c' o') hs (t ∷ l.transactions)
  unfolding posted
  post_other c' o' other =
      let g = sound.agrees c' o' in
      let h : held c' o' hs ≡ held c' o' l.holds = omega (arith, rw other at (holds_move c' o')) in
      let of : is_of c' o' t ≡ false = is_of-key c' o' fits ∙ other in
      let skip = λ (f : Transaction → ℕ). posted_skip f c' o' t l.transactions of in
      rw other (record {
        balanced = g.balanced;
        frozen_held = g.frozen_held ∙ sym h;
        available_posted = omega (arith, g, skip available_out, skip available_in);
        frozen_posted = omega (arith, g, skip frozen_out, skip frozen_in);
        consumed_posted = g.consumed_posted ∙ sym (skip charge_of);
        refunded_posted = g.refunded_posted ∙ sym (skip refund_of);
      })

  post_own : Agrees c o (some a) hs (t ∷ l.transactions)
  post_own =
      let g : Agrees c o (some a0) l.holds l.transactions = rw row at (sound.agrees c o) in
      let own : is_key c o c o ≡ true = rw (===_refl c, ===_refl o) in
      let h : held c o hs + d.frozen_minus ≡ held c o l.holds + d.frozen_plus =
        rw own at (holds_move c o) in
      let u = update_account-Updated a0 a d now updated in
      let of : is_of c o t ≡ true = is_of-key c o fits ∙ own in
      let put = λ (f : Transaction → ℕ). posted_take f c o t l.transactions of in
      record {
        balanced = omega (arith, g, u, fits);
        frozen_held = omega (arith, g, u, h);
        available_posted = omega (arith, g, u, fits, put available_out, put available_in);
        frozen_posted = omega (arith, g, u, fits, put frozen_out, put frozen_in);
        consumed_posted = omega (arith, g, u, fits, put charge_of);
        refunded_posted = omega (arith, g, u, fits, put refund_of);
      }

  post-Agrees : (c' o' : String) → Agrees c' o' (put_account l c o a c' o') hs (t ∷ l.transactions)
  post-Agrees c' o' = elim (key_cases c o c' o') [
    | inl other ↦ post_other c' o' other
    | inr (own, same_c, same_o) ↦ rw own (
        subst (λ x. Agrees x o' (some a) hs (t ∷ l.transactions)) same_c
          (subst (λ x. Agrees c x (some a) hs (t ∷ l.transactions)) same_o post_own))
  ]

  -- The rule for all six operations.
  pub settle-IsSound :
      {l' : Ledger}
      → ((id : String) → copies id hs ≤ 1)
      → ((id : String)
          → refund_part id t + refunded_total id l.transactions
            ≤ charged_part id t + charged id l.transactions)
      → settle l c o a hs t ≡ ok l'
      → IsSound l'
  unfolding settle insert_transaction refunded_total charged
  settle-IsSound {l'} distinct refundable e = elim (Bool-cases (any (clashes t) l.transactions)) [
    | inl clash ↦ cc (rw clash at e)
    | inr fresh ↦
        let l1 : Ledger = record l {
          accounts = put_account l c o a;
          holds = hs;
          transactions = t ∷ l.transactions;
        } in
        let same : l1 ≡ l' = ok_inj (rw fresh at e) in
        subst IsSound same
          (record { agrees = post-Agrees; distinct = distinct; refundable = refundable })
  ]
