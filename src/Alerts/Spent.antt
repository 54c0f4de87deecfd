-- ===== src/Alerts/Spent.antt =====
-- That a delivery which cannot be sent ends, over the batches of
-- src/modules/alert-delivery/service.ts.
use otto_control.Prelude.{
  ℕ, String, is_some, Option-cases, ◌∷◌, List, All-map, zero, suc, ◌+◌, ◌≤◌, ◌<◌, true, false,
  Bool-cases, inl, inr, leb, ◌≡◌, refl, ap, ◌∙◌, if◌then◌else◌, arith,
}
use otto_control.Alerts.Deliveries.{failed, retrying, Delivery, AlertStore, is_waiting}
use otto_control.Alerts.Claims.{Claim, claimed, finished}
use otto_control.Alerts.Attempts.{AlertService, Round, failure, is_terminal, deliver_batch}
use otto_control.Alerts.Alone.{attempt_failed}
use otto_control.Alerts.Batch.{IsWaiting, delay_bounds, first_claim, batch_fails}

-- The table after so many batches, each by its own clock.
abbrev pub batches : AlertService → List String → (ℕ → ℕ → Round) → ℕ → AlertStore → AlertStore
batches sv channels clock zero s = s
batches sv channels clock (suc n) s =
    (deliver_batch sv channels (clock n) (batches sv channels clock n s)).1

-- What has become of a delivery after k failed attempts, the last of them at an instant.
pub record IsTried (sv : AlertService) (d : Delivery) (rest : List Delivery) (k at : ℕ)
    (s : AlertStore) : Type 0 where
  pub tried : Delivery
  pub rows : s.deliveries ≡ tried ∷ rest
  pub id : tried.id ≡ d.id
  pub channel : tried.channel_id ≡ d.channel_id
  pub fresh : is_some tried.delivered_at ≡ false
  pub attempts : tried.attempts ≡ k + d.attempts
  pub status : tried.status ≡ (if leb sv.max_attempts (k + d.attempts) then failed else retrying)
  pub due : tried.next_attempt_at ≤ at + 3600000

tried_due :
    (sv : AlertService) (error : String) (t : Round) (i : Claim) (d : Delivery)
    → (attempt_failed sv error t i d).next_attempt_at ≤ t.failed_at + 3600000
unfolding finished failure is_terminal claimed
tried_due sv error t i d = elim (Bool-cases (leb sv.max_attempts (suc d.attempts))) [
  | inl h ↦ rw h (omega arith)
  | inr h ↦ rw h (omega (arith, (delay_bounds (suc d.attempts)).1))
]

once :
    (sv : AlertService) (channels : List String) (t : ℕ → Round) (d : Delivery)
    (rest : List Delivery) (s : AlertStore)
    → ((x : Delivery) → is_some (sv.deliver x) ≡ true)
    → IsWaiting sv channels d rest s
    → d.next_attempt_at ≤ (t 19).claimed_at
    → (t 18).claimed_at < (t 19).failed_at + 30000
    → IsTried sv d rest 1 (t 19).failed_at (deliver_batch sv channels t s).1
unfolding finished failure is_terminal claimed
once sv channels t d rest s refused w late quick =
    let i = first_claim channels t in
    let one : suc d.attempts ≡ 1 + d.attempts = omega arith in
    elim (Option-cases (sv.deliver (claimed i d))) [
      | inl h ↦ let impossible = rw h at (refused (claimed i d)) in cc
      | inr (error, h) ↦ record {
        tried = attempt_failed sv error (t 19) i d;
        rows = batch_fails sv channels t d rest s error w h late quick;
        id = refl;
        channel = refl;
        fresh = refl;
        attempts = one;
        status = ap (λ n. if leb sv.max_attempts n then failed else retrying) one;
        due = tried_due sv error (t 19) i d;
      }
    ]

-- One attempt more, of a delivery that has attempts left.
again :
    (sv : AlertService) (channels : List String) (t : ℕ → Round) (d : Delivery)
    (rest : List Delivery) (k at : ℕ) (s s0 : AlertStore)
    → ((x : Delivery) → is_some (sv.deliver x) ≡ true)
    → IsWaiting sv channels d rest s0
    → IsTried sv d rest k at s
    → sv.max_attempts ≤ 20
    → suc k + d.attempts ≤ sv.max_attempts
    → at + 3600000 ≤ (t 19).claimed_at
    → (t 18).claimed_at < (t 19).failed_at + 30000
    → IsTried sv d rest (suc k) (t 19).failed_at (deliver_batch sv channels t s).1
unfolding is_waiting
again sv channels t d rest k at s s0 refused w x few left late quick =
    let more : leb sv.max_attempts (k + d.attempts) ≡ false = ground (arith, left) in
    let waiting : IsWaiting sv channels x.tried rest s = record {
      rows = x.rows;
      idle = All-map (λ y h. (h.0, h.1, rw x.id h.2)) rest w.idle;
      waits = rw (x.status, more) refl;
      open_channel = rw x.channel w.open_channel;
      fresh = x.fresh;
      low = omega (arith, x.attempts, left, few);
    } in
    let y = once sv channels t x.tried rest s refused waiting (omega (arith, x.due, late)) quick in
    let count : 1 + x.tried.attempts ≡ suc k + d.attempts = omega (arith, x.attempts) in
    record {
      tried = y.tried;
      rows = y.rows;
      id = y.id ∙ x.id;
      channel = y.channel ∙ x.channel;
      fresh = y.fresh;
      attempts = y.attempts ∙ count;
      status = y.status ∙ ap (λ n. if leb sv.max_attempts n then failed else retrying) count;
      due = y.due;
    }

-- While nothing can be sent, a delivery that waits alone among rows that no claim takes is tried
-- once in each batch, where it is due at the first one, each batch starts its second round
-- within half a minute of the first one's failure, and the next batch starts an hour after that
-- failure at least: after each batch it has one attempt more, and it has failed exactly when
-- these reach the limit of attempts, which is at most twenty.
pub failures_end :
    (sv : AlertService) (channels : List String) (clock : ℕ → ℕ → Round) (d : Delivery)
    (rest : List Delivery) (s : AlertStore) (m : ℕ)
    → ((x : Delivery) → is_some (sv.deliver x) ≡ true)
    → IsWaiting sv channels d rest s
    → d.next_attempt_at ≤ (clock 0 19).claimed_at
    → ((n : ℕ) → (clock n 18).claimed_at < (clock n 19).failed_at + 30000)
    → ((n : ℕ) → (clock n 19).failed_at + 3600000 ≤ (clock (suc n) 19).claimed_at)
    → sv.max_attempts ≤ 20
    → suc m + d.attempts ≤ sv.max_attempts
    → IsTried sv d rest (suc m) (clock m 19).failed_at (batches sv channels clock (suc m) s)
failures_end sv channels clock d rest s zero refused w late quick spaced few left =
    once sv channels (clock 0) d rest s refused w late (quick 0)
failures_end sv channels clock d rest s (suc m) refused w late quick spaced few left =
    let x =
      failures_end sv channels clock d rest s m refused w late quick spaced few
        (omega (arith, left)) in
    again sv channels (clock (suc m)) d rest (suc m) (clock m 19).failed_at
      (batches sv channels clock (suc m) s) s refused w x few left (spaced m) (quick (suc m))
