-- ===== src/Alerts/Attempts.antt =====
-- The loop of `#poll`, and `retry`, of src/modules/alert-delivery/service.ts. Sending an alert is I/O, a
-- parameter that gives the message of its error, if it fails.
use otto_control.Prelude.{
  ℕ, zero, suc, Option, ◌+◌, ◌-◌, ◌*◌, ◌^◌, String, Bool, true, false, if◌then◌else◌, leb, none,
  some, List, pos,
}
use otto_control.Errors.{
  Result, ok, err, Failure, ensure, ◌>>◌, invalid_request, not_found, conflict,
}
use otto_control.Audit.Canonical.{Runtime, text, integer, object, no_entry, entry}
use otto_control.Audit.Chain.{EventInput}
use otto_control.Alerts.Deliveries.{
  delivered, failed, retrying, Delivery, AlertStore, get_alert_delivery, retry_alert_delivery,
  is_failed,
}
use otto_control.Alerts.Claims.{Claim, Finish, claim_alert_delivery, finish_alert_delivery}

unfoldable pub min : ℕ → ℕ → ℕ
min a b = if leb a b then a else b

unfoldable pub retry_delay_ms : ℕ → ℕ
retry_delay_ms attempt = min 3600000 (30000 * 2 ^ (attempt - 1))

pub record AlertService : Type 0 where
  pub runtime : Runtime
  pub max_attempts : ℕ
  pub deliver : Delivery → Option String
  pub safe_delivery_error : String → String
  pub message_of : Failure → String

-- The instants that one round of the loop reads.
pub record Round : Type 0 where
  pub claimed_at : ℕ
  pub delivered_at : ℕ
  pub failed_at : ℕ
  pub stored_at : ℕ

pub record PollResult : Type 0 where
  pub processed : ℕ
  pub delivered : ℕ
  pub retrying : ℕ
  pub failed : ℕ

abbrev pub max_batch_size : ℕ
max_batch_size = 20

abbrev pub delivery_lease_ms : ℕ
delivery_lease_ms = 120000

unfoldable pub alert_event : String → String → Delivery → EventInput
alert_event actor action d = record {
  actor_id = actor;
  action = action;
  target_type = "alert_delivery";
  target_id = d.id;
  detail = object (
      entry "channelId" (text d.channel_id) (
        entry "attempts" (integer (pos d.attempts))
          (entry "eventType" (text d.event_type) no_entry)));
}

unfoldable pub success : ℕ → Delivery → ℕ → Finish
success at d lease = record {
  id = d.id;
  expected_lease_until = lease;
  status = delivered;
  next_attempt_at = at;
  last_error = none;
  delivered_at = some at;
  updated_at = at;
  audit = some (alert_event "system:alert-worker" "alert.delivery.delivered" d);
}

unfoldable pub is_terminal : AlertService → Delivery → Bool
is_terminal sv d = leb sv.max_attempts d.attempts

unfoldable pub failure : AlertService → String → ℕ → Delivery → ℕ → Finish
failure sv error at d lease = record {
  id = d.id;
  expected_lease_until = lease;
  status = if is_terminal sv d then failed else retrying;
  next_attempt_at = if is_terminal sv d then at else at + retry_delay_ms d.attempts;
  last_error = some (sv.safe_delivery_error error);
  delivered_at = none;
  updated_at = at;
  audit =
      if is_terminal sv d
      then some (alert_event "system:alert-worker" "alert.delivery.failed" d)
      else none;
}

-- How the loop goes on after a round: with the counts, or it ends with a failure of the database, or
-- with the error that the lease was lost.
pub data Outcome : Type 0 where
  counted : PollResult → Outcome
  broken : Failure → Outcome
  lease_lost : Outcome

unfoldable pub count_failure : Bool → PollResult → PollResult
count_failure true r = record r { failed = suc r.failed }
count_failure false r = record r { retrying = suc r.retrying }

-- The `catch` of the loop. A failure leaves the store as the statements before it did.
unfoldable pub settle_failure :
    AlertService → String → Round → ℕ → Delivery → PollResult → AlertStore → Outcome × AlertStore
settle_failure sv error t lease d r s =
    elim (finish_alert_delivery sv.runtime t.stored_at (failure sv error t.failed_at d lease) s) [
      | err e ↦ (broken e, s)
      | ok (none, s1) ↦ (lease_lost, s1)
      | ok (some f, s1) ↦ (counted (count_failure (is_terminal sv d) r), s1)
    ]

abbrev pub lost_completion : String
lost_completion = "alert delivery lease was lost before completion"

unfoldable pub settle :
    AlertService → Round → ℕ → Delivery → PollResult → AlertStore → Outcome × AlertStore
settle sv t lease d r s = elim (sv.deliver d) [
  | some error ↦ settle_failure sv error t lease d r s
  | none ↦ elim (finish_alert_delivery sv.runtime t.stored_at (success t.delivered_at d lease) s) [
    | err e ↦ settle_failure sv (sv.message_of e) t lease d r s
    | ok (none, s1) ↦ settle_failure sv lost_completion t lease d r s1
    | ok (some f, s1) ↦ (counted (record r { delivered = suc r.delivered }), s1)
  ]
]

unfoldable pub claim_at : List String → ℕ → Claim
claim_at channels now = record {
  now = now;
  lease_until = now + delivery_lease_ms;
  channel_ids = channels;
}

-- The loop, over what is left of a batch, with the instants of its rounds.
unfoldable pub poll_each :
    AlertService → List String → (ℕ → Round) → ℕ → PollResult → AlertStore → Outcome × AlertStore
poll_each sv channels rounds zero r s = (counted r, s)
poll_each sv channels rounds (suc n) r s =
    let t = rounds n in
    let i = claim_at channels t.claimed_at in
    elim (claim_alert_delivery i s) [
      | err e ↦ (broken e, s)
      | ok (none, s1) ↦ (counted r, s1)
      | ok (some d, s1) ↦
          let (o, s2) = settle sv t i.lease_until d (record r { processed = suc r.processed }) s1 in
          elim o [
            | counted r2 ↦ poll_each sv channels rounds n r2 s2
            | broken e ↦ (broken e, s2)
            | lease_lost ↦ (lease_lost, s2)
          ]
    ]

unfoldable pub nothing_yet : PollResult
nothing_yet = record { processed = 0; delivered = 0; retrying = 0; failed = 0 }

unfoldable pub deliver_batch :
    AlertService → List String → (ℕ → Round) → AlertStore → Outcome × AlertStore
deliver_batch sv channels rounds s = poll_each sv channels rounds max_batch_size nothing_yet s

unfoldable pub retry_event : String → Delivery → EventInput
retry_event actor d = record {
  actor_id = actor;
  action = "alert.delivery.retried";
  target_type = "alert_delivery";
  target_id = d.id;
  detail = object (
      entry "channelId" (text d.channel_id) (
        entry "previousAttempts" (integer (pos d.attempts))
          (entry "eventType" (text d.event_type) no_entry)));
}

unfoldable pub retried_or_conflict : Option Delivery × AlertStore → Result (Delivery × AlertStore)
retried_or_conflict (none, s) =
    err (conflict "alert delivery changed concurrently; reload and retry")
retried_or_conflict (some d, s) = ok (d, s)

-- `retry`, with the pattern of ids and whether a channel is enabled and has a secret.
unfoldable pub retry :
    AlertService
    → (String → Bool)
    → (String → Bool)
    → ℕ
    → ℕ
    → String
    → String
    → AlertStore
    → Result (Delivery × AlertStore)
retry sv is_alert_id is_available stored_at retried_at id actor s =
    ensure (is_alert_id id) (invalid_request "alert delivery id is invalid")
    >> elim (get_alert_delivery id s) [
      | none ↦ err (not_found "alert delivery not found")
      | some d ↦
          ensure (is_failed d.status) (conflict "only failed alert deliveries can be retried")
          >> ensure (is_available d.channel_id)
              (conflict "alert channel is unavailable or disabled")
          >> retried_or_conflict
              (retry_alert_delivery sv.runtime stored_at id retried_at (retry_event actor d) s)
    ]
