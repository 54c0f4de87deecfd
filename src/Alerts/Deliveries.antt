-- ===== src/Alerts/Deliveries.antt =====
-- The queue of alert deliveries: enqueueAlertDelivery to pruneAlertDeliveries of
-- src/storage/postgres-store.ts, with the checks and the unique indexes of control_alert_deliveries
-- in src/storage/migrations.ts.
use otto_control.Prelude.{
  ℕ, String, ◌===◌, Bool, true, false, not, ◌&&◌, ◌||◌, if◌then◌else◌, ltb, leb, ◌==◌, Option, none,
  some, is_some, List, ◌∷◌, map, find, any, select, sort_by, take, length, text_before,
}
use otto_control.Errors.{Result, ok, err, database, unique_violation}
use otto_control.Audit.Canonical.{Runtime}
use otto_control.Audit.Chain.{AuditStore, EventInput, append_chained}

pub data Status : Type 0 where
  pending delivering retrying delivered failed : Status

pub record Delivery : Type 0 where
  pub id : String
  pub channel_id : String
  pub source : String
  pub event_type : String
  pub fingerprint : String
  pub severity : String
  pub payload : String
  pub status : Status
  pub attempts : ℕ
  pub next_attempt_at : ℕ
  pub lease_until : Option ℕ
  pub last_error : Option String
  pub delivered_at : Option ℕ
  pub created_at : ℕ
  pub updated_at : ℕ

pub record AlertStore : Type 0 where
  pub deliveries : List Delivery
  pub audit : AuditStore

unfoldable pub is_delivering : Status → Bool
is_delivering delivering = true
is_delivering _ = false

unfoldable pub is_delivered : Status → Bool
is_delivered delivered = true
is_delivered _ = false

unfoldable pub is_failed : Status → Bool
is_failed failed = true
is_failed _ = false

unfoldable pub is_waiting : Status → Bool
is_waiting pending = true
is_waiting retrying = true
is_waiting _ = false

unfoldable pub agree : Bool → Bool → Bool
agree true b = b
agree false b = not b

-- The checks of the table on what the statements write.
unfoldable pub row_checks : Delivery → Bool
row_checks d =
    leb d.attempts 100
    && agree (is_delivering d.status) (is_some d.lease_until)
    && agree (is_delivered d.status) (is_some d.delivered_at)

pub record NewDelivery : Type 0 where
  pub id : String
  pub channel_id : String
  pub source : String
  pub event_type : String
  pub fingerprint : String
  pub severity : String
  pub payload : String
  pub created_at : ℕ
  pub audit : EventInput

unfoldable pub new_row : NewDelivery → Delivery
new_row i = record {
  id = i.id;
  channel_id = i.channel_id;
  source = i.source;
  event_type = i.event_type;
  fingerprint = i.fingerprint;
  severity = i.severity;
  payload = i.payload;
  status = pending;
  attempts = 0;
  next_attempt_at = i.created_at;
  lease_until = none;
  last_error = none;
  delivered_at = none;
  created_at = i.created_at;
  updated_at = i.created_at;
}

unfoldable pub is_same_alert : NewDelivery → Delivery → Bool
is_same_alert i d = d.fingerprint === i.fingerprint && d.channel_id === i.channel_id

unfoldable pub has_id : String → Delivery → Bool
has_id id d = d.id === id

-- The instant is the database's, for the column created_at of the audit event.
unfoldable pub enqueue_alert_delivery :
    Runtime → ℕ → NewDelivery → AlertStore → Result (Delivery × Bool × AlertStore)
enqueue_alert_delivery rt at i s = elim (find (is_same_alert i) s.deliveries) [
  | some d ↦ ok (d, false, s)
  | none ↦
      if any (has_id i.id) s.deliveries
      then err (database unique_violation)
      else ok (
        new_row i,
        true,
        record {
          deliveries = new_row i ∷ s.deliveries;
          audit = append_chained rt i.audit at s.audit;
        },
      )
]

unfoldable pub get_alert_delivery : String → AlertStore → Option Delivery
get_alert_delivery id s = find (has_id id) s.deliveries

unfoldable pub list_alert_deliveries : ℕ → AlertStore → List Delivery
list_alert_deliveries limit s = take limit (
    sort_by
      (λ a b.
        ltb b.created_at a.created_at || (a.created_at == b.created_at && text_before b.id a.id))
      s.deliveries)

unfoldable pub can_retry : String → Delivery → Bool
can_retry id d = has_id id d && is_failed d.status

unfoldable pub retried : ℕ → Delivery → Delivery
retried at d = record d {
  status = pending;
  attempts = 0;
  next_attempt_at = at;
  lease_until = none;
  last_error = none;
  delivered_at = none;
  updated_at = at;
}

unfoldable pub retry_row : String → ℕ → Delivery → Delivery
retry_row id at d = if can_retry id d then retried at d else d

unfoldable pub retry_alert_delivery :
    Runtime → ℕ → String → ℕ → EventInput → AlertStore → Option Delivery × AlertStore
retry_alert_delivery rt now id at audit s = elim (find (can_retry id) s.deliveries) [
  | none ↦ (none, s)
  | some d ↦ (
    some (retried at d),
    record {
      deliveries = map (retry_row id at) s.deliveries;
      audit = append_chained rt audit now s.audit;
    },
  )
]

unfoldable pub is_kept : ℕ → Delivery → Bool
is_kept before d = not ((is_delivered d.status || is_failed d.status) && ltb d.updated_at before)

unfoldable pub prune_alert_deliveries : ℕ → AlertStore → ℕ × AlertStore
prune_alert_deliveries before s = (
  length (select (λ d. not (is_kept before d)) s.deliveries),
  record s { deliveries = select (is_kept before) s.deliveries },
)
