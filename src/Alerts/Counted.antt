-- ===== src/Alerts/Counted.antt =====
-- What a batch of the loop counts, and what stops it.
use otto_control.Prelude.{
  ℕ, ◌⊎◌, zero, suc, ◌+◌, ◌≤◌, String, Bool, true, false, Option-cases, inl, inr, none, some, List,
  ◌≡◌, refl, arith,
}
use mathlib.Core.Path.{subst}
use otto_control.Errors.{Failure, Result-cases, err, database, check_violation}
use otto_control.Alerts.Deliveries.{Delivery, AlertStore, row_checks}
use otto_control.Alerts.Claims.{
  Claim, candidate, claimed, claim_alert_delivery, finish_alert_delivery,
}
use otto_control.Alerts.Attempts.{
  AlertService, Round, PollResult, Outcome, counted, broken, lease_lost, claim_at, failure, success,
  is_terminal, count_failure, settle_failure, settle, lost_completion, poll_each, deliver_batch,
  nothing_yet, max_batch_size,
}

abbrev pub settled : PollResult → ℕ
settled r = r.delivered + r.retrying + r.failed

count_failure-settled : (b : Bool) (r : PollResult) → settled (count_failure b r) ≡ suc (settled r)
unfolding count_failure
count_failure-settled true r = omega arith
count_failure-settled false r = omega arith

count_failure-processed : (b : Bool) (r : PollResult) → (count_failure b r).processed ≡ r.processed
unfolding count_failure
count_failure-processed true r = refl
count_failure-processed false r = refl

-- An outcome that counts has counted the delivery that was processed.
abbrev Counts : PollResult → Outcome → Type 0
Counts r (counted q) = (q.processed ≡ r.processed) × (settled q ≡ suc (settled r))
Counts r (broken e) = Unit
Counts r lease_lost = Unit

settle_failure-Counts :
    (sv : AlertService) (error : String) (t : Round) (lease : ℕ) (d : Delivery) (r : PollResult)
    (s : AlertStore)
    → Counts r (settle_failure sv error t lease d r s).0
unfolding settle_failure
settle_failure-Counts sv error t lease d r s =
    elim (Result-cases
      (finish_alert_delivery sv.runtime t.stored_at (failure sv error t.failed_at d lease) s)) [
        | inl ((none, s1), h) ↦ rw (settle_failure, h) tt
        | inl ((some f, s1), h) ↦
            rw (settle_failure, h)
              (
                count_failure-processed (is_terminal sv d) r,
                count_failure-settled (is_terminal sv d) r,
              )
        | inr (e, h) ↦ rw (settle_failure, h) tt
      ]

settle-Counts :
    (sv : AlertService) (t : Round) (lease : ℕ) (d : Delivery) (r : PollResult) (s : AlertStore)
    → Counts r (settle sv t lease d r s).0
unfolding settle
settle-Counts sv t lease d r s = elim (Option-cases (sv.deliver d)) [
  | inr (error, k) ↦ rw (settle, k) (settle_failure-Counts sv error t lease d r s)
  | inl k ↦
      elim (Result-cases
        (finish_alert_delivery sv.runtime t.stored_at (success t.delivered_at d lease) s)) [
          | inl ((none, s1), h) ↦
              rw (settle, k, h) (settle_failure-Counts sv lost_completion t lease d r s1)
          | inl ((some f, s1), h) ↦ rw (settle, k, h) (refl, omega arith)
          | inr (e, h) ↦
              rw (settle, k, h) (settle_failure-Counts sv (sv.message_of e) t lease d r s)
        ]
]

-- What a batch adds to its counts.
abbrev Adds : ℕ → PollResult → Outcome → Type 0
Adds n r (counted q) =
    (settled q + r.processed ≡ settled r + q.processed) × (q.processed ≤ n + r.processed)
Adds n r (broken e) = Unit
Adds n r lease_lost = Unit

Outcome-cases :
    (o : Outcome)
    → ((q : PollResult) × (o ≡ counted q)) ⊎ (((e : Failure) × (o ≡ broken e)) ⊎ (o ≡ lease_lost))
Outcome-cases (counted q) = inl (q, refl)
Outcome-cases (broken e) = inr (inl (e, refl))
Outcome-cases lease_lost = inr (inr refl)

-- A round and the rest of the batch.
Adds-after :
    (n : ℕ) (r q : PollResult) (o : Outcome)
    → Counts (record r { processed = suc r.processed }) (counted q)
    → Adds n q o
    → Adds (suc n) r o
Adds-after n r q (counted p) (same, one) (sum, bound) = (omega arith, omega arith)
Adds-after n r q (broken e) c a = tt
Adds-after n r q lease_lost c a = tt

poll_each-Adds :
    (sv : AlertService) (channels : List String) (rounds : ℕ → Round) (n : ℕ) (r : PollResult)
    (s : AlertStore)
    → Adds n r (poll_each sv channels rounds n r s).0
unfolding poll_each
poll_each-Adds sv channels rounds zero r s = (refl, omega arith)
poll_each-Adds sv channels rounds (suc n) r s =
    let t = rounds n in
    let i = claim_at channels t.claimed_at in
    let r1 : PollResult = record r { processed = suc r.processed } in
    elim (Result-cases (claim_alert_delivery i s)) [
      | inr (e, h) ↦ rw (poll_each, h) tt
      | inl ((none, s1), h) ↦ rw (poll_each, h) (refl, omega arith)
      | inl ((some d, s1), h) ↦
          let counts = settle-Counts sv t i.lease_until d r1 s1 in
          elim (Outcome-cases (settle sv t i.lease_until d r1 s1).0) [
            | inl (q, k) ↦
                rw (poll_each, h, k)
                  (Adds-after n r q
                    (poll_each sv channels rounds n q (settle sv t i.lease_until d r1 s1).1).0
                    (rw k at counts)
                    (poll_each-Adds sv channels rounds n q (settle sv t i.lease_until d r1 s1).1))
            | inr (inl (e, k)) ↦ rw (poll_each, h, k) tt
            | inr (inr k) ↦ rw (poll_each, h, k) tt
          ]
    ]

-- A batch that ends without an error processed at most twenty deliveries, and each of them is
-- counted once, as delivered, to be retried or failed.
pub deliver_batch-counts :
    (sv : AlertService) (channels : List String) (rounds : ℕ → Round) (s : AlertStore)
    {q : PollResult}
    → (deliver_batch sv channels rounds s).0 ≡ counted q
    → (q.processed ≡ q.delivered + q.retrying + q.failed) × (q.processed ≤ 20)
unfolding deliver_batch nothing_yet
deliver_batch-counts sv channels rounds s {q} e =
    let adds : Adds max_batch_size nothing_yet (counted q) =
      subst (Adds max_batch_size nothing_yet) e
        (poll_each-Adds sv channels rounds max_batch_size nothing_yet s) in
    (omega (arith, adds.0), omega (arith, adds.1))

-- A claim of it violates the check on attempts.
claim_exhausted :
    (i : Claim) (s : AlertStore) {c : Delivery}
    → candidate i s ≡ some c
    → c.attempts ≡ 100
    → claim_alert_delivery i s ≡ err (database check_violation)
unfolding claim_alert_delivery row_checks claimed
claim_exhausted i s e full = rw (claim_alert_delivery, e, claim_alert_delivery, full) refl

-- While the first due delivery was claimed a hundred times, a batch fails with the check of the table
-- and changes nothing.
pub deliver_batch_blocked :
    (sv : AlertService) (channels : List String) (rounds : ℕ → Round) (s : AlertStore)
    {c : Delivery}
    → candidate (claim_at channels (rounds 19).claimed_at) s ≡ some c
    → c.attempts ≡ 100
    → deliver_batch sv channels rounds s ≡ (broken (database check_violation), s)
unfolding deliver_batch poll_each
deliver_batch_blocked sv channels rounds s {c} e full =
    rw
      (
        deliver_batch,
        poll_each,
        claim_exhausted (claim_at channels (rounds 19).claimed_at) s e full,
      )
      refl
