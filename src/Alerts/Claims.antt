-- ===== src/Alerts/Claims.antt =====
-- The claims of alert deliveries: claimAlertDelivery and finishAlertDelivery of
-- src/storage/postgres-store.ts.
use otto_control.Prelude.{
  ℕ, suc, String, Bool, false, ◌&&◌, ◌||◌, if◌then◌else◌, ltb, leb, ◌==◌, Option, none, some, List,
  [], ◌∷◌, map, find, any, select, sort_by, text_before, ◌===◌,
}
use otto_control.Errors.{Result, ok, err, database, check_violation}
use otto_control.Audit.Canonical.{Runtime}
use otto_control.Audit.Chain.{AuditStore, EventInput, append_chained}
use otto_control.Alerts.Deliveries.{
  Status, delivering, Delivery, AlertStore, is_delivering, is_waiting, row_checks, has_id,
}

pub record Claim : Type 0 where
  pub now : ℕ
  pub lease_until : ℕ
  pub channel_ids : List String

unfoldable pub lease_ended : ℕ → Option ℕ → Bool
lease_ended now none = false
lease_ended now (some t) = leb t now

unfoldable pub is_due : Claim → Delivery → Bool
is_due i d =
    any (λ c. d.channel_id === c) i.channel_ids
    && ((is_waiting d.status && leb d.next_attempt_at i.now)
        || (is_delivering d.status && lease_ended i.now d.lease_until))

-- `ORDER BY next_attempt_at, created_at, id`.
unfoldable pub is_before : Delivery → Delivery → Bool
is_before a b =
    ltb a.next_attempt_at b.next_attempt_at
    || (a.next_attempt_at == b.next_attempt_at
        && (ltb a.created_at b.created_at
            || (a.created_at == b.created_at && text_before a.id b.id)))

unfoldable pub first_of : List Delivery → Option Delivery
first_of [] = none
first_of (d ∷ ds) = some d

unfoldable pub candidate : Claim → AlertStore → Option Delivery
candidate i s = first_of (sort_by is_before (select (is_due i) s.deliveries))

unfoldable pub claimed : Claim → Delivery → Delivery
claimed i d = record d {
  status = delivering;
  attempts = suc d.attempts;
  lease_until = some i.lease_until;
  updated_at = i.now;
}

unfoldable pub claim_row : Claim → Delivery → Delivery → Delivery
claim_row i c d = if has_id c.id d then claimed i d else d

unfoldable pub claim_alert_delivery : Claim → AlertStore → Result (Option Delivery × AlertStore)
claim_alert_delivery i s = elim (candidate i s) [
  | none ↦ ok (none, s)
  | some c ↦
      if row_checks (claimed i c)
      then ok (some (claimed i c), record s { deliveries = map (claim_row i c) s.deliveries })
      else err (database check_violation)
]

pub record Finish : Type 0 where
  pub id : String
  pub expected_lease_until : ℕ
  pub status : Status
  pub next_attempt_at : ℕ
  pub last_error : Option String
  pub delivered_at : Option ℕ
  pub updated_at : ℕ
  pub audit : Option EventInput

unfoldable pub lease_is : ℕ → Option ℕ → Bool
lease_is t none = false
lease_is t (some u) = u == t

unfoldable pub is_held : Finish → Delivery → Bool
is_held i d =
    has_id i.id d && is_delivering d.status && lease_is i.expected_lease_until d.lease_until

unfoldable pub finished : Finish → Delivery → Delivery
finished i d = record d {
  status = i.status;
  next_attempt_at = i.next_attempt_at;
  lease_until = none;
  last_error = i.last_error;
  delivered_at = i.delivered_at;
  updated_at = i.updated_at;
}

unfoldable pub finish_row : Finish → Delivery → Delivery
finish_row i d = if is_held i d then finished i d else d

unfoldable pub append_optional : Runtime → ℕ → Option EventInput → AuditStore → AuditStore
append_optional rt at none a = a
append_optional rt at (some e) a = append_chained rt e at a

unfoldable pub finish_alert_delivery :
    Runtime → ℕ → Finish → AlertStore → Result (Option Delivery × AlertStore)
finish_alert_delivery rt at i s =
    let rows = map (finish_row i) s.deliveries in
    elim (find (is_held i) s.deliveries) [
      | none ↦ ok (none, record s { deliveries = rows })
      | some d ↦
          if row_checks (finished i d)
          then ok (
            some (finished i d),
            record { deliveries = rows; audit = append_optional rt at i.audit s.audit },
          )
          else err (database check_violation)
    ]
