-- ===== src/Alerts/Batch.antt =====
-- One batch of a delivery that cannot be sent, by the loop of src/modules/alert-delivery/service.ts.
use otto_control.Prelude.{
  ℕ, String, ◌===◌, some, is_some, ◌∷◌, List, All, All-map, any, zero, suc, ◌+◌, ◌-◌, ◌^◌, ◌≤◌, ◌<◌,
  true, false, Bool-cases, inl, inr, leb, le→leb, ◌≡◌, refl, ap, ◌∙◌, arith,
}
use otto_control.Errors.{ok}
use otto_control.Alerts.Deliveries.{Delivery, AlertStore, is_waiting, is_delivering}
use otto_control.Alerts.Claims.{Claim, claimed, finished, is_due, claim_alert_delivery}
use otto_control.Alerts.Attempts.{
  AlertService, Round, PollResult, counted, claim_at, failure, is_terminal, retry_delay_ms, min,
  settle, poll_each, deliver_batch, nothing_yet,
}
use otto_control.Alerts.Alone.{IsIdle, claim-alone, candidate-none, settle-alone, attempt_failed}

pow_positive : (n : ℕ) → 1 ≤ 2 ^ n
pow_positive zero = omega arith
pow_positive (suc n) = omega (arith, pow_positive n)

-- A retry waits for half a minute at least and for an hour at most.
pub delay_bounds : (n : ℕ) → (30000 ≤ retry_delay_ms n) × (retry_delay_ms n ≤ 3600000)
unfolding retry_delay_ms min
delay_bounds n = ground (arith, pow_positive (n - 1))

abbrev pub first_claim : List String → (ℕ → Round) → Claim
first_claim channels t = claim_at channels (t 19).claimed_at

-- A delivery that waits, has attempts left, and stands alone among rows that no claim takes.
pub record IsWaiting (sv : AlertService) (channels : List String) (d : Delivery)
    (rest : List Delivery) (s : AlertStore) : Type 0 where
  pub rows : s.deliveries ≡ d ∷ rest
  pub idle : All (IsIdle d) rest
  pub waits : is_waiting d.status ≡ true
  pub open_channel : any (λ c. d.channel_id === c) channels ≡ true
  pub fresh : is_some d.delivered_at ≡ false
  pub low : d.attempts < 100

waiting_due :
    (d : Delivery) (channels : List String) (now : ℕ)
    → is_waiting d.status ≡ true
    → any (λ c. d.channel_id === c) channels ≡ true
    → d.next_attempt_at ≤ now
    → is_due (claim_at channels now) d ≡ true
unfolding is_due claim_at
waiting_due d channels now waits enabled late =
    rw (enabled, waits, le→leb d.next_attempt_at now late) refl

-- After a failed attempt the delivery is not due within half a minute.
failed_not_due :
    (sv : AlertService) (error : String) (t : Round) (i : Claim) (d : Delivery)
    (channels : List String) (now : ℕ)
    → now < t.failed_at + 30000
    → is_due (claim_at channels now) (attempt_failed sv error t i d) ≡ false
unfolding is_due finished failure is_waiting is_delivering is_terminal claimed claim_at
failed_not_due sv error t i d channels now soon =
    elim (Bool-cases (any (λ c. d.channel_id === c) channels)) [
      | inr h ↦ rw h refl
      | inl h ↦ elim (Bool-cases (is_terminal sv (claimed i d))) [
        | inl k ↦ rw (h, k) refl
        | inr k ↦
            let (least, most) = delay_bounds (claimed i d).attempts in
            let early : leb (t.failed_at + retry_delay_ms (claimed i d).attempts) now ≡ false =
              ground (arith, least, soon) in
            rw (h, k, early) refl
      ]
    ]

attempt_failed-IsIdle :
    (sv : AlertService) (error : String) (t : Round) (i : Claim) (d x : Delivery)
    → IsIdle d x
    → IsIdle (attempt_failed sv error t i d) x
unfolding finished claimed
attempt_failed-IsIdle sv error t i d x idle = idle

-- The second claim of the batch finds nothing.
batch_ends :
    (sv : AlertService) (channels : List String) (t : ℕ → Round) (e : Delivery)
    (rest : List Delivery) (q : PollResult) (s : AlertStore)
    → s.deliveries ≡ e ∷ rest
    → All (IsIdle e) rest
    → is_due (claim_at channels (t 18).claimed_at) e ≡ false
    → (poll_each sv channels t 19 q s).1 ≡ s
unfolding poll_each claim_alert_delivery
batch_ends sv channels t e rest q s rows idle early =
    rw
      (
        poll_each,
        claim_alert_delivery,
        candidate-none (claim_at channels (t 18).claimed_at) s e rest rows idle early,
      )
      refl

-- One round of the loop.
poll_step :
    (sv : AlertService) (channels : List String) (t : ℕ → Round) (n : ℕ) (r q : PollResult)
    (s s1 s2 : AlertStore) (d : Delivery)
    → claim_alert_delivery (claim_at channels (t n).claimed_at) s ≡ ok (some d, s1)
    → settle sv
        (t n)
        (claim_at channels (t n).claimed_at).lease_until
        d
        (record r { processed = suc r.processed })
        s1
      ≡ (counted q, s2)
    → poll_each sv channels t (suc n) r s ≡ poll_each sv channels t n q s2
unfolding poll_each
poll_step sv channels t n r q s s1 s2 d taken done =
    rw (poll_each, taken, done) (ap (λ x. poll_each sv channels t n q x) (ap (λ p. p.1) done))

-- A batch that starts when the delivery is due and is quick tries it once.
pub batch_fails :
    (sv : AlertService) (channels : List String) (t : ℕ → Round) (d : Delivery)
    (rest : List Delivery) (s : AlertStore) (error : String)
    → IsWaiting sv channels d rest s
    → sv.deliver (claimed (first_claim channels t) d) ≡ some error
    → d.next_attempt_at ≤ (t 19).claimed_at
    → (t 18).claimed_at < (t 19).failed_at + 30000
    → (deliver_batch sv channels t s).1.deliveries
      ≡ attempt_failed sv error (t 19) (first_claim channels t) d ∷ rest
unfolding deliver_batch
batch_fails sv channels t d rest s error w refused late quick =
    let i = first_claim channels t in
    let due = waiting_due d channels (t 19).claimed_at w.waits w.open_channel late in
    let taken = claim-alone i s d rest w.rows w.idle due w.low w.fresh in
    let s1 : AlertStore = record s { deliveries = claimed i d ∷ rest } in
    let r : PollResult = record nothing_yet { processed = suc nothing_yet.processed } in
    let (q, s2, done, rows) =
      settle-alone sv error (t 19) i d rest r s1 refl w.idle w.low refused in
    let e = attempt_failed sv error (t 19) i d in
    let ends =
      batch_ends sv channels t e rest q s2 rows
        (All-map (attempt_failed-IsIdle sv error (t 19) i d) rest w.idle)
        (failed_not_due sv error (t 19) i d channels (t 18).claimed_at quick) in
    ap (λ p. p.1.deliveries)
      (poll_step sv channels t 19 nothing_yet q s s1 s2 (claimed i d) taken done)
    ∙ ap (λ x. x.deliveries) ends
    ∙ rows
