-- ===== src/Billing/Held.antt =====
-- Creating, capturing and releasing holds keep the ledger sound.
use otto_control.Prelude.{
  ℕ, ◌+◌, ◌≤◌, String, ◌===◌, ===_eq, true, false, ◌&&◌, some, List, ◌∷◌, ◌≡◌, ◌∙◌, sym, refl, ap,
  arith, Bool-cases, inl, inr, any, leb, ltb, find_sound,
}
use otto_control.Errors.{ok, ensure-eq-ok}
use otto_control.Billing.Records.{Account, Hold, HoldStatus, captured}
use otto_control.Billing.Tables.{
  Ledger, is_key, is_active, insert_hold, hold_clashes, find_hold, mark_hold,
}
use otto_control.Billing.Post.{HoldMutation}
use otto_control.Billing.Holds.{HoldRequest, new_hold, freeze_change, freeze_transaction, post_hold}
use otto_control.Billing.Captures.{
  Capture, capture_change, capture_transaction, post_capture, Release, release_change,
  release_transaction, post_release, status_of, Reason, released, expired,
}
use otto_control.Billing.Sums.{
  held, copies, copies_fresh, copies-mark_hold, held-mark_hold, when, is_hold_of_key,
}
use otto_control.Billing.Sound.{IsSound}
use otto_control.Billing.Settle.{Fits}
use otto_control.Billing.Preserve.{posting-holds, posting-IsSound}

freeze-Fits :
    (i : HoldRequest) (a : Account)
    → Fits i.customer_id i.organization_id (freeze_change i) (freeze_transaction i a)
freeze-Fits i a = record {
  customer = refl;
  organization = refl;
  available = ground arith;
  frozen = omega arith;
  charge = refl;
  refund = refl;
  level = omega arith;
}

capture-Fits :
    (i : Capture) (h : Hold) (a : Account)
    → Fits i.customer_id h.organization_id (capture_change i h) (capture_transaction i h a)
capture-Fits i h a = record {
  customer = refl;
  organization = refl;
  available = ground arith;
  frozen = ground arith;
  charge = refl;
  refund = refl;
  level = omega arith;
}

release-Fits :
    (i : Release) (h : Hold) (a : Account)
    → Fits i.customer_id h.organization_id (release_change h) (release_transaction i h a)
release-Fits i h a = record {
  customer = refl;
  organization = refl;
  available = ground arith;
  frozen = ground arith;
  charge = refl;
  refund = refl;
  level = omega arith;
}

-- What an insertion of a hold returns.
insert_hold_sound :
    (h : Hold) (hs : List Hold) {hs' : List Hold}
    → insert_hold h hs ≡ ok hs'
    → (any (hold_clashes h) hs ≡ false) × (h ∷ hs ≡ hs')
unfolding insert_hold
insert_hold_sound h hs e = ground arith

copies_insert :
    (h : Hold) (hs : List Hold)
    → any (hold_clashes h) hs ≡ false
    → ((id : String) → copies id hs ≤ 1)
    → (id : String) → copies id (h ∷ hs) ≤ 1
unfolding copies
copies_insert h hs fresh distinct id = elim (Bool-cases (h.id === id)) [
  | inr other ↦ rw other (omega (arith, distinct id))
  | inl own ↦
      let none_yet = rw (===_eq h.id id own) at (copies_fresh h hs fresh) in
      rw own (omega (arith, none_yet))
]

held_insert :
    (i : HoldRequest) (hs : List Hold) (c o : String)
    → held c o (new_hold i ∷ hs) + when (is_key i.customer_id i.organization_id c o) 0
      ≡ held c o hs + when (is_key i.customer_id i.organization_id c o) i.amount
unfolding held
held_insert i hs c o = ground arith

ended_by : (x : Reason) → is_active (status_of x) ≡ false
ended_by released = refl
ended_by expired = refl

pub post_hold-IsSound :
    (l : Ledger) (current : Account) (i : HoldRequest) {r : HoldMutation} {l' : Ledger}
    → IsSound l
    → l.accounts i.customer_id i.organization_id ≡ some current
    → post_hold l current i ≡ ok (r, l')
    → IsSound l'
unfolding post_hold
post_hold-IsSound l current i s row e =
    let e' = (ensure-eq-ok (leb i.amount current.available_balance) _ _ e).1 in
    let (hs, wrote) =
      posting-holds l i.customer_id i.organization_id current (freeze_change i) i.occurred_at
        (insert_hold (new_hold i) l.holds) (freeze_transaction i) _ e' in
    let (fresh, same) = insert_hold_sound (new_hold i) l.holds wrote in
    posting-IsSound l i.customer_id i.organization_id current (freeze_change i) i.occurred_at
      (insert_hold (new_hold i) l.holds) (new_hold i ∷ l.holds) (freeze_transaction i) _ s row
      (wrote ∙ ap ok (sym same)) (freeze-Fits i) (held_insert i l.holds)
      (copies_insert (new_hold i) l.holds fresh s.distinct)
      (λ a id. ground (arith, s.refundable id)) e'

-- A hold that an operation found and that is active moves its amount out of the frozen credits.
module _ (l : Ledger) (id cust : String) (h : Hold) (to : HoldStatus) (now : ℕ) (s : IsSound l)
    (there : find_hold id cust l.holds ≡ some h) (live : is_active h.status ≡ true)
    (ended : is_active to ≡ false) where
  found_customer : h.customer_id ≡ cust
  unfolding find_hold
  found_customer =
      let passes =
        find_sound (λ (x : Hold). x.id === id && x.customer_id === cust) l.holds {x = h} there in
      ===_eq h.customer_id cust (ground arith)

  pub held_moved :
      (c o : String)
      → held c o (mark_hold id to now l.holds) + when (is_key cust h.organization_id c o) h.amount
        ≡ held c o l.holds + when (is_key cust h.organization_id c o) 0
  held_moved c o =
      let sums =
        held-mark_hold c o id cust to now l.holds {h = h} there live ended (s.distinct id) in
      let key : is_hold_of_key c o h ≡ is_key cust h.organization_id c o = rw found_customer refl in
      ground (arith, rw key at sums)

  pub copies_moved : (k : String) → copies k (mark_hold id to now l.holds) ≤ 1
  copies_moved k = omega (arith, copies-mark_hold k id to now l.holds, s.distinct k)

pub post_capture-IsSound :
    (l : Ledger) (current : Account) (i : Capture) (h : Hold) {r : HoldMutation} {l' : Ledger}
    → IsSound l
    → find_hold i.hold_id i.customer_id l.holds ≡ some h
    → l.accounts i.customer_id h.organization_id ≡ some current
    → post_capture l current i h ≡ ok (r, l')
    → IsSound l'
unfolding post_capture
post_capture-IsSound l current i h s there row e =
    let (live, e1) = ensure-eq-ok (is_active h.status) _ _ e in
    let e2 = (ensure-eq-ok (ltb i.occurred_at h.expires_at) _ _ e1).1 in
    let e3 = (ensure-eq-ok (leb i.amount (current.available_balance + h.amount)) _ _ e2).1 in
    posting-IsSound l i.customer_id h.organization_id current (capture_change i h) i.occurred_at
      (ok (mark_hold i.hold_id captured i.occurred_at l.holds)) _ (capture_transaction i h) _ s row
      refl (capture-Fits i h)
      (held_moved l i.hold_id i.customer_id h captured i.occurred_at s there live refl)
      (copies_moved l i.hold_id i.customer_id h captured i.occurred_at s there live refl)
      (λ a id. ground (arith, s.refundable id)) e3

pub post_release-IsSound :
    (l : Ledger) (current : Account) (i : Release) (h : Hold) {r : HoldMutation} {l' : Ledger}
    → IsSound l
    → find_hold i.hold_id i.customer_id l.holds ≡ some h
    → l.accounts i.customer_id h.organization_id ≡ some current
    → post_release l current i h ≡ ok (r, l')
    → IsSound l'
unfolding post_release
post_release-IsSound l current i h s there row e =
    let (live, e1) = ensure-eq-ok (is_active h.status) _ _ e in
    let to = status_of i.reason in
    let ended : is_active to ≡ false = ended_by i.reason in
    posting-IsSound l i.customer_id h.organization_id current (release_change h) i.occurred_at
      (ok (mark_hold i.hold_id to i.occurred_at l.holds)) _ (release_transaction i h) _ s row refl
      (release-Fits i h)
      (held_moved l i.hold_id i.customer_id h to i.occurred_at s there live ended)
      (copies_moved l i.hold_id i.customer_id h to i.occurred_at s there live ended)
      (λ a id. ground (arith, s.refundable id)) e1
