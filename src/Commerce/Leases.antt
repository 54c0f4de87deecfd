-- ===== src/Commerce/Leases.antt =====
-- `issueLease` of src/modules/commercial-control/service.ts. The nonce, the report of seats and its
-- audit event stay written when a later step fails, so that the handler gives the store in any case.
use otto_control.Prelude.{
  ℕ, ◌+◌, String, ◌==◌, Bool, true, false, Option, none, some, List, [], ◌∷◌, ◌++◌, map, leb, get,
  not, ◌||◌, if◌then◌else◌, pos,
}
use Prim.Native.String.{◌++◌ as string_append}
use otto_control.Errors.{Result, ok, err, conflict, invalid_request, unauthorized, ◌>>=◌}
use otto_control.Requests.{field, is_undefined}
use otto_control.Licenses.Seats.{
  SeatStatus, SeatUsage, SeatReport, Seats, record_license_seat_usage, unreported, within_limit,
  over_limit_monitor, overage_grace, blocked, Enforcement, enforce, monitor,
}
use otto_control.Audit.Canonical.{Json, text, integer, null, object, no_entry, entry, Entries}
use otto_control.Audit.Chain.{EventInput}
use otto_control.Commerce.Records.{License, Store}
use otto_control.Commerce.Store.{consume_lease_nonce}
use otto_control.Commerce.Changes.{record_event, bounded}
use otto_control.Commerce.LeaseChecks.{
  GraceReason, expiration, seat_overage, Lease, LeaseService, check_lease, nonce_of,
}

abbrev pub is_status : SeatStatus → SeatStatus → Bool
is_status unreported unreported = true
is_status within_limit within_limit = true
is_status over_limit_monitor over_limit_monitor = true
is_status overage_grace overage_grace = true
is_status blocked blocked = true
is_status _ _ = false

-- `previousUsage?.status !== usage.status || previousUsage?.seatLimit !== usage.seatLimit`.
unfoldable pub is_changed : Option SeatUsage → SeatUsage → Bool
is_changed none u = true
is_changed (some p) u = not (is_status p.status u.status) || not (p.seat_limit == u.seat_limit)

abbrev pub status_name : SeatStatus → String
status_name unreported = "unreported"
status_name within_limit = "within_limit"
status_name over_limit_monitor = "over_limit_monitor"
status_name overage_grace = "overage_grace"
status_name blocked = "blocked"

abbrev pub nullable : Option ℕ → Json
nullable none = null
nullable (some n) = integer (pos n)

abbrev pub previous_name : Option SeatUsage → String
previous_name none = "unreported"
previous_name (some u) = status_name u.status

unfoldable pub seat_event : License → Option SeatUsage → SeatUsage → EventInput
seat_event l previous u = record {
  actor_id = string_append "deployment:" l.deployment_id;
  action = "license.seat_status_changed";
  target_type = "license";
  target_id = l.id;
  detail = object (
      entry "previousStatus" (text (previous_name previous)) (
        entry "status" (text (status_name u.status)) (
          entry "activeSeats" (integer (pos u.active_seats)) (
            entry "seatLimit" (integer (pos u.seat_limit))
              (entry "graceExpiresAtMs" (nullable u.grace_expires_at) no_entry)))));
}

unfoldable pub seats_of : Store → Seats
seats_of s = record {
  licenses = map (λ e. e.0) s.licenses;
  deployments = map (λ e. e.0) s.deployments;
  usage = s.seat_usage;
}

unfoldable pub seat_report : License → ℕ → ℕ → SeatReport
seat_report l count now = record {
  license_id = l.id;
  deployment_id = l.deployment_id;
  active_seats = count;
  seat_limit = l.seat_limit;
  grace_period = l.grace_period_ms;
  enforcement = l.seat_enforcement;
  reported_at = now;
}

unfoldable pub report_seats : LeaseService → License → ℕ → ℕ → Store → Result (SeatUsage × Store)
report_seats sv l count now s = do
  (u, seats) ← record_license_seat_usage (seats_of s) (seat_report l count now)
  let previous = get l.id s.seat_usage
  let s1 : Store = record s { seat_usage = seats.usage }
  ok (
    u,
    if is_changed previous u then record_event sv.base (seat_event l previous u) now s1 else s1,
  )

-- The reasons for grace with their deadlines.
unfoldable pub expiry_grace : License → ℕ → List (GraceReason × ℕ)
expiry_grace l now =
    if leb l.expires_at_ms now then (expiration, l.expires_at_ms + l.grace_period_ms) ∷ [] else []

unfoldable pub seat_grace : SeatStatus → Option ℕ → List (GraceReason × ℕ)
seat_grace overage_grace (some t) = (seat_overage, t) ∷ []
seat_grace _ _ = []

abbrev pub min : ℕ → ℕ → ℕ
min a b = if leb a b then a else b

-- `Math.min(...graceDeadlines)`, where there is any.
unfoldable pub earliest : List (GraceReason × ℕ) → Option ℕ
earliest [] = none
earliest ((r, t) ∷ rest) = elim (earliest rest) [ none ↦ some t | some u ↦ some (min t u) ]

unfoldable pub value_or : Option ℕ → ℕ → ℕ
value_or none d = d
value_or (some t) d = t

unfoldable pub make_lease :
    LeaseService → License → String → Option ℕ → SeatStatus → Option ℕ → ℕ → Lease
make_lease sv l lease_id count status seat_grace_end now =
    let graces = expiry_grace l now ++ seat_grace status seat_grace_end in
    let grace_end = earliest graces in
    record {
      id = lease_id;
      license_id = l.id;
      deployment_id = l.deployment_id;
      machine_fingerprint = l.machine_fingerprint;
      license_revision = l.revision;
      issued_at_ms = now;
      expires_at_ms = min (now + sv.lease_duration_ms) (value_or grace_end l.expires_at_ms);
      seat_limit = l.seat_limit;
      active_seat_count = count;
      seat_status = status;
      grace_reasons = map (λ g. g.0) graces;
      grace_expires_at_ms = grace_end;
    }

unfoldable pub signed_lease : LeaseService → Lease → Result (Lease × String × String)
signed_lease sv lease = sv.sign_lease lease >>= λ signed. ok (lease, signed.0, signed.1)

abbrev pub is_enforced : Enforcement → Bool
is_enforced enforce = true
is_enforced monitor = false

unfoldable pub lease_reported :
    LeaseService
    → License
    → String
    → ℕ
    → ℕ
    → Store
    → Result (SeatUsage × Store)
    → Result (Lease × String × String) × Store
lease_reported sv l lease_id count now s (err failure) = (err failure, s)
lease_reported sv l lease_id count now s (ok (u, s1)) =
    if is_status u.status blocked
    then (err (unauthorized "active seats exceed the licensed limit and grace period"), s1)
    else (
      signed_lease sv (make_lease sv l lease_id (some count) u.status u.grace_expires_at now),
      s1,
    )

unfoldable pub lease_counted :
    LeaseService
    → License
    → String
    → ℕ
    → Store
    → Result ℕ
    → Result (Lease × String × String) × Store
lease_counted sv l lease_id now s (err failure) = (err failure, s)
lease_counted sv l lease_id now s (ok count) =
    lease_reported sv l lease_id count now s (report_seats sv l count now s)

-- What follows the nonce.
unfoldable pub lease_seats :
    LeaseService → License → Json → String → ℕ → Store → Result (Lease × String × String) × Store
lease_seats sv l count lease_id now s =
    if is_undefined count
    then (
      if is_enforced l.seat_enforcement
          then err (invalid_request "activeSeatCount is required when seat enforcement is enabled")
          else signed_lease sv (make_lease sv l lease_id none unreported none now),
      s,
    )
    else lease_counted sv l lease_id now s (bounded sv.base.texts 0 10000000 count)

unfoldable pub lease_fresh :
    LeaseService
    → License
    → Entries
    → String
    → ℕ
    → Store
    → Result (Bool × Store)
    → Result (Lease × String × String) × Store
lease_fresh sv l body lease_id now s (err failure) = (err failure, s)
lease_fresh sv l body lease_id now s (ok (false, s1)) =
    (err (conflict "lease request replay detected"), s1)
lease_fresh sv l body lease_id now s (ok (true, s1)) =
    lease_seats sv l (field "activeSeatCount" body) lease_id now s1

unfoldable pub lease_checked :
    LeaseService
    → String
    → ℕ
    → Store
    → Result (License × Entries)
    → Result (Lease × String × String) × Store
lease_checked sv lease_id now s (err failure) = (err failure, s)
lease_checked sv lease_id now s (ok (l, body)) =
    lease_fresh sv l body lease_id now s (consume_lease_nonce (nonce_of l body now) now s)

unfoldable pub issue_lease :
    LeaseService
    → String
    → Json
    → String
    → String
    → ℕ
    → Store
    → Result (Lease × String × String) × Store
issue_lease sv license_id raw bearer lease_id now s =
    lease_checked sv lease_id now s (check_lease sv license_id raw bearer now s)
