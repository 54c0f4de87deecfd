-- ===== src/Alerts/Tests.antt =====
-- Runs of the queue of alerts, and instances of its theorems.
use otto_control.Prelude.{
  ℕ, ◌*◌, some, if◌then◌else◌, ◌-◌, ◌+◌, ◌≤◌, String, ◌===◌, false, none, List, [], ◌∷◌, ◌≡◌, refl,
  arith,
}
use otto_control.Alerts.Attempts.{
  poll_each, claim_at, settle, settle_failure, success, failure, is_terminal, count_failure,
  retry_delay_ms, min, nothing_yet, alert_event, deliver_batch, AlertService, Round, counted,
  broken,
}
use otto_control.Alerts.Deliveries.{
  is_waiting, is_delivering, has_id, is_waiting, is_delivering, row_checks, agree, is_delivered,
  has_id, pending, failed, Delivery, AlertStore,
}
use otto_control.Alerts.Claims.{
  claim_alert_delivery, candidate, first_of, is_due, lease_ended, claimed, claim_row, is_before,
  finish_alert_delivery, is_held, lease_is, finished, finish_row, append_optional, Claim,
}
use otto_control.Errors.{ok, database, check_violation}
use otto_control.Audit.Canonical.{Runtime}
use otto_control.Audit.Chain.{genesis_hash}
use otto_control.Alerts.Counted.{deliver_batch-counts, deliver_batch_blocked}
use otto_control.Alerts.Fenced.{finish_fenced}
use otto_control.Alerts.Spent.{failures_end, batches, IsTried}
use otto_control.Alerts.Batch.{IsWaiting}

abbrev toy : Runtime
toy = record {
  sha256 = λ t. "hash";
  stringify = λ j. "{}";
  locale_before = λ s t. false;
  to_iso_string = λ n. "then";
  read_back = λ v. v;
}

abbrev worker : AlertService
worker = record {
  runtime = toy;
  max_attempts = 2;
  deliver = λ d. if d.channel_id === "mail" then none else some "HTTP 503";
  safe_delivery_error = λ t. t;
  message_of = λ e. "database";
}

abbrev alert : String → String → ℕ → Delivery
alert id channel attempts = record {
  id = id;
  channel_id = channel;
  source = "backup_status";
  event_type = "backup.recovery.alert";
  fingerprint = "f";
  severity = "critical";
  payload = "{}";
  status = pending;
  attempts = attempts;
  next_attempt_at = 10;
  lease_until = none;
  last_error = none;
  delivered_at = none;
  created_at = 10;
  updated_at = 10;
}

abbrev queue : List Delivery → AlertStore
queue ds = record {
  deliveries = ds;
  audit = record { events = []; last_sequence = 0; head_hash = genesis_hash };
}

-- One second passes between rounds.
abbrev round : ℕ → Round
round n = record {
  claimed_at = 50000 + 1000 * (20 - n);
  delivered_at = 50000 + 1000 * (20 - n) + 1;
  failed_at = 50000 + 1000 * (20 - n) + 2;
  stored_at = 50000 + 1000 * (20 - n) + 3;
}

abbrev channels : List String
channels = "mail" ∷ "hook" ∷ []

abbrev busy : AlertStore
busy = queue (alert "a" "mail" 0 ∷ alert "b" "hook" 0 ∷ alert "c" "hook" 1 ∷ [])

delays : retry_delay_ms 3 ≡ 120000
unfolding retry_delay_ms min
delays = refl

delay_limit : retry_delay_ms 9 ≡ 3600000
unfolding retry_delay_ms min
delay_limit = refl

busy_counts :
    (deliver_batch worker channels round busy).0
    ≡ counted (record { processed = 3; delivered = 1; retrying = 1; failed = 1 })
unfolding poll_each claim_at settle settle_failure success failure is_terminal count_failure
    retry_delay_ms min nothing_yet alert_event deliver_batch claim_alert_delivery candidate first_of
    is_due is_waiting is_delivering lease_ended row_checks agree is_delivered claimed claim_row
    has_id is_before finish_alert_delivery is_held lease_is finished finish_row append_optional
busy_counts = refl

deliver_batch-counts_example : (3 ≡ 1 + 1 + 1) × (3 ≤ 20)
deliver_batch-counts_example = deliver_batch-counts worker channels round busy busy_counts

abbrev stuck : AlertStore
stuck = queue (alert "a" "mail" 100 ∷ alert "b" "mail" 0 ∷ [])

deliver_batch_blocked_example :
    deliver_batch worker channels round stuck ≡ (broken (database check_violation), stuck)
unfolding candidate first_of is_due claim_at is_waiting is_before
deliver_batch_blocked_example = deliver_batch_blocked worker channels round stuck refl refl

abbrev taken : Delivery
taken = claimed (claim_at channels 50000) (alert "a" "mail" 0)

abbrev again : Claim
again = claim_at channels 170000

finish_fenced_example :
    finish_alert_delivery toy 171000
      (success 170500 taken 170000)
      (queue (claimed again taken ∷ []))
    ≡ ok (none, queue (claimed again taken ∷ []))
unfolding claim_alert_delivery candidate first_of is_due claim_at claimed is_waiting is_delivering
    lease_ended row_checks agree is_delivered success claim_row has_id
finish_fenced_example =
    finish_fenced toy 171000 again (success 170500 taken 170000) (queue (taken ∷ [])) refl refl
      (omega arith)

abbrev refusing : AlertService
refusing = record worker { deliver = λ d. some "HTTP 503" }

abbrev hour_apart : ℕ → ℕ → Round
hour_apart n r = record {
  claimed_at = 4000000 * n + 50000 + 1000 * (20 - r);
  delivered_at = 4000000 * n + 50000 + 1000 * (20 - r) + 1;
  failed_at = 4000000 * n + 50000 + 1000 * (20 - r) + 2;
  stored_at = 4000000 * n + 50000 + 1000 * (20 - r) + 3;
}

abbrev ended : Delivery
ended = record (alert "z" "mail" 2) { status = failed }

abbrev lonely : AlertStore
lonely = queue (alert "b" "hook" 0 ∷ ended ∷ [])

lonely-IsWaiting : IsWaiting refusing channels (alert "b" "hook" 0) (ended ∷ []) lonely
unfolding is_waiting is_delivering has_id
lonely-IsWaiting = record {
  rows = refl;
  idle = ((refl, refl, refl), tt);
  waits = refl;
  open_channel = refl;
  fresh = refl;
  low = omega arith;
}

failures_end_example :
    IsTried refusing
      (alert "b" "hook" 0)
      (ended ∷ [])
      2
      4051002
      (batches refusing channels hour_apart 2 lonely)
failures_end_example =
    failures_end refusing channels hour_apart (alert "b" "hook" 0) (ended ∷ []) lonely 1 (λ x. refl)
      lonely-IsWaiting (omega arith) (λ n. omega arith) (λ n. omega arith) (omega arith)
      (omega arith)
