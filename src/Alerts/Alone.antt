-- ===== src/Alerts/Alone.antt =====
-- One batch over a table in which one delivery is left to do and cannot be sent.
use otto_control.Prelude.{
  ℕ, [], suc, ◌<◌, String, ◌===◌, ===_refl, true, false, Bool-cases, inl, inr, none, some, is_some,
  List, ◌∷◌, map, any, All, select, select-none, All-map, leb, ==_iff, le→leb, ◌≡◌, refl, arith,
}
use otto_control.Errors.{ok}
use otto_control.Alerts.Deliveries.{
  Delivery, AlertStore, is_waiting, is_delivering, is_delivered, has_id, row_checks, agree,
}
use otto_control.Alerts.Claims.{
  Claim, Finish, is_due, candidate, first_of, claimed, claim_row, claim_alert_delivery, is_held,
  lease_is, finished, finish_row, finish_alert_delivery, append_optional,
}
use otto_control.Alerts.Attempts.{
  AlertService, Round, PollResult, counted, failure, is_terminal, count_failure, settle_failure,
  settle,
}

-- A row that no claim takes, under another id.
abbrev pub IsIdle : Delivery → Delivery → Type 0
IsIdle d x =
    (is_waiting x.status ≡ false) × (is_delivering x.status ≡ false) × (has_id d.id x ≡ false)

idle_not_due : (i : Claim) (d x : Delivery) → IsIdle d x → is_due i x ≡ false
unfolding is_due
idle_not_due i d x (waits, delivers, other) =
    elim (Bool-cases (any (λ c. x.channel_id === c) i.channel_ids)) [
      | inl h ↦ rw (h, waits, delivers) refl
      | inr h ↦ rw h refl
    ]

select-idle :
    (i : Claim) (d : Delivery) (rest : List Delivery)
    → All (IsIdle d) rest
    → select (is_due i) rest ≡ []
select-idle i d rest idle = select-none (is_due i) rest (All-map (idle_not_due i d) rest idle)

candidate-alone :
    (i : Claim) (s : AlertStore) (d : Delivery) (rest : List Delivery)
    → s.deliveries ≡ d ∷ rest
    → All (IsIdle d) rest
    → is_due i d ≡ true
    → candidate i s ≡ some d
unfolding candidate first_of
candidate-alone i s d rest rows idle due = rw (rows, due, select-idle i d rest idle) refl

pub candidate-none :
    (i : Claim) (s : AlertStore) (d : Delivery) (rest : List Delivery)
    → s.deliveries ≡ d ∷ rest
    → All (IsIdle d) rest
    → is_due i d ≡ false
    → candidate i s ≡ none
unfolding candidate first_of
candidate-none i s d rest rows idle due = rw (rows, due, select-idle i d rest idle) refl

map-claim_row :
    (i : Claim) (d : Delivery) (rest : List Delivery)
    → All (IsIdle d) rest
    → map (claim_row i d) rest ≡ rest
unfolding claim_row
map-claim_row i d [] idle = refl
map-claim_row i d (x ∷ rest) idle = rw (idle.0.2, map-claim_row i d rest idle.1) refl

map-finish_row :
    (f : Finish) (d : Delivery) (rest : List Delivery)
    → f.id ≡ d.id
    → All (IsIdle d) rest
    → map (finish_row f) rest ≡ rest
unfolding finish_row is_held
map-finish_row f d [] same idle = refl
map-finish_row f d (x ∷ rest) same idle =
    rw (same, idle.0.2, map-finish_row f d rest same idle.1) refl

-- The claim takes the delivery.
pub claim-alone :
    (i : Claim) (s : AlertStore) (d : Delivery) (rest : List Delivery)
    → s.deliveries ≡ d ∷ rest
    → All (IsIdle d) rest
    → is_due i d ≡ true
    → d.attempts < 100
    → is_some d.delivered_at ≡ false
    → claim_alert_delivery i s
      ≡ ok (some (claimed i d), record s { deliveries = claimed i d ∷ rest })
unfolding claim_alert_delivery row_checks claimed agree is_delivering is_delivered claim_row has_id
claim-alone i s d rest rows idle due low fresh =
    let few : leb (suc d.attempts) 100 ≡ true = le→leb (suc d.attempts) 100 (omega (arith, low)) in
    rw
      (
        candidate-alone i s d rest rows idle due,
        claim_alert_delivery,
        few,
        fresh,
        rows,
        ===_refl d.id,
        map-claim_row i d rest idle,
      )
      refl

held :
    (sv : AlertService) (error : String) (at : ℕ) (i : Claim) (d : Delivery)
    → is_held (failure sv error at (claimed i d) i.lease_until) (claimed i d) ≡ true
unfolding is_held claimed failure has_id is_delivering lease_is
held sv error at i d = rw (===_refl d.id, (==_iff i.lease_until i.lease_until).1 refl) refl

passes :
    (sv : AlertService) (error : String) (at : ℕ) (i : Claim) (d : Delivery)
    → d.attempts < 100
    → row_checks (finished (failure sv error at (claimed i d) i.lease_until) (claimed i d)) ≡ true
unfolding row_checks finished failure claimed agree is_delivering is_delivered
passes sv error at i d low =
    let few : leb (suc d.attempts) 100 ≡ true = le→leb (suc d.attempts) 100 (omega (arith, low)) in
    elim (Bool-cases (is_terminal sv (claimed i d))) [
      | inl h ↦ rw (h, few) refl
      | inr h ↦ rw (h, few) refl
    ]

-- The row that a failed attempt leaves.
abbrev pub attempt_failed : AlertService → String → Round → Claim → Delivery → Delivery
attempt_failed sv error t i d =
    finished (failure sv error t.failed_at (claimed i d) i.lease_until) (claimed i d)

-- The statement finishes the delivery that is held and no other row.
finish-alone :
    (sv : AlertService) (at : ℕ) (f : Finish) (d c : Delivery) (rest : List Delivery)
    (s : AlertStore)
    → s.deliveries ≡ c ∷ rest
    → All (IsIdle d) rest
    → f.id ≡ d.id
    → is_held f c ≡ true
    → row_checks (finished f c) ≡ true
    → finish_alert_delivery sv.runtime at f s
      ≡ ok (
        some (finished f c),
        record {
          deliveries = finished f c ∷ rest;
          audit = append_optional sv.runtime at f.audit s.audit;
        },
      )
unfolding finish_alert_delivery finish_row
finish-alone sv at f d c rest s rows idle same own good =
    let others = map-finish_row f d rest same idle in
    rw (rows, own, finish_alert_delivery, good, rows, own, others) refl

failure_id :
    (sv : AlertService) (error : String) (at : ℕ) (i : Claim) (d : Delivery)
    → (failure sv error at (claimed i d) i.lease_until).id ≡ d.id
unfolding failure claimed
failure_id sv error at i d = refl

pub settle-alone :
    (sv : AlertService) (error : String) (t : Round) (i : Claim) (d : Delivery)
    (rest : List Delivery) (r : PollResult) (s : AlertStore)
    → s.deliveries ≡ claimed i d ∷ rest
    → All (IsIdle d) rest
    → d.attempts < 100
    → sv.deliver (claimed i d) ≡ some error
    → (q : PollResult) × (s' : AlertStore) × (settle sv t i.lease_until (claimed i d) r s
        ≡ (counted q, s'))
      × (s'.deliveries ≡ attempt_failed sv error t i d ∷ rest)
unfolding settle settle_failure
settle-alone sv error t i d rest r s rows idle low refused =
    let f = failure sv error t.failed_at (claimed i d) i.lease_until in
    let done =
      finish-alone sv t.stored_at f d (claimed i d) rest s rows idle
        (failure_id sv error t.failed_at i d) (held sv error t.failed_at i d)
        (passes sv error t.failed_at i d low) in
    (
      count_failure (is_terminal sv (claimed i d)) r,
      record {
        deliveries = attempt_failed sv error t i d ∷ rest;
        audit = append_optional sv.runtime t.stored_at f.audit s.audit;
      },
      rw (refused, settle, settle_failure, done) refl,
      refl,
    )
