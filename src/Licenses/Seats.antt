-- ===== src/Licenses/Seats.antt =====
-- A report of active seats and the state that it leaves. The row of the license is locked, so a
-- report is one step.
use otto_control.Prelude.{
  ℕ, ◌+◌, String, ◌===◌, Bool, true, false, not, ◌&&◌, Option, none, some, List, [], ◌∷◌, Map, get,
  set, any, leb, ltb, if◌then◌else◌,
}
use otto_control.Errors.{Result, ok, err, database, foreign_key_violation, check_violation, ◌>>=◌}

pub data Enforcement : Type 0 where
  monitor enforce : Enforcement

pub data SeatStatus : Type 0 where
  unreported within_limit over_limit_monitor overage_grace blocked : SeatStatus

pub record SeatUsage : Type 0 where
  pub license_id : String
  pub deployment_id : String
  pub active_seats : ℕ
  pub seat_limit : ℕ
  pub status : SeatStatus
  pub overage_started_at : Option ℕ
  pub grace_expires_at : Option ℕ
  pub last_reported_at : ℕ

-- The rows under their primary key, with the licenses and deployments that they refer to.
pub record Seats : Type 0 where
  pub licenses : List String
  pub deployments : List String
  pub usage : Map SeatUsage

pub record SeatReport : Type 0 where
  pub license_id : String
  pub deployment_id : String
  pub active_seats : ℕ
  pub seat_limit : ℕ
  pub grace_period : ℕ
  pub enforcement : Enforcement
  pub reported_at : ℕ

abbrev pub is_over : SeatReport → Bool
is_over i = ltb i.seat_limit i.active_seats

abbrev pub is_enforced : SeatReport → Bool
is_enforced i = elim i.enforcement [ monitor ↦ false | enforce ↦ true ]

-- `previous?.overageStartedAtMs`.
abbrev pub previous_start : Option SeatUsage → Option ℕ
previous_start none = none
previous_start (some u) = u.overage_started_at

abbrev pub value_or : Option ℕ → ℕ → ℕ
value_or none t = t
value_or (some u) t = u

unfoldable pub overage_start : Option SeatUsage → SeatReport → Option ℕ
overage_start previous i =
    if is_over i && is_enforced i
    then some (value_or (previous_start previous) i.reported_at)
    else none

abbrev pub grace_end : Option ℕ → SeatReport → Option ℕ
grace_end none i = none
grace_end (some t) i = some (t + i.grace_period)

-- `reportedAtMs >= graceExpiresAtMs!`, where `null` compares as 0.
abbrev pub is_grace_over : Option ℕ → ℕ → Bool
is_grace_over none now = true
is_grace_over (some t) now = leb t now

unfoldable pub seat_status : Option ℕ → SeatReport → SeatStatus
seat_status grace i =
    if not (is_over i)
    then within_limit
    else if not (is_enforced i)
    then over_limit_monitor
    else if is_grace_over grace i.reported_at
    then blocked
    else overage_grace

abbrev pub reported : Option SeatUsage → SeatReport → SeatUsage
reported previous i =
    let start = overage_start previous i in
    record {
      license_id = i.license_id;
      deployment_id = i.deployment_id;
      active_seats = i.active_seats;
      seat_limit = i.seat_limit;
      status = seat_status (grace_end start i) i;
      overage_started_at = start;
      grace_expires_at = grace_end start i;
      last_reported_at = i.reported_at;
    }

abbrev pub is_known : Seats → SeatReport → Bool
is_known s i =
    any (λ x. x === i.license_id) s.licenses && any (λ x. x === i.deployment_id) s.deployments

unfoldable pub record_license_seat_usage : Seats → SeatReport → Result (SeatUsage × Seats)
record_license_seat_usage s i =
    let row = reported (get i.license_id s.usage) i in
    if not (ltb 0 i.seat_limit)
    then err (database check_violation)
    else if is_known s i
    then ok (row, record s { usage = set i.license_id row s.usage })
    else err (database foreign_key_violation)

unfoldable pub get_license_seat_usage : Seats → String → Option SeatUsage
get_license_seat_usage s id = get id s.usage

-- The reports in the order in which they arrive.
unfoldable pub record_all : Seats → List SeatReport → Result Seats
record_all s [] = ok s
record_all s (i ∷ is) = do (u, s') ← record_license_seat_usage s i; record_all s' is
