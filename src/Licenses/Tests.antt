-- ===== src/Licenses/Tests.antt =====
-- A license with five seats over three reports.
use otto_control.Prelude.{◌+◌, none, some, [], ◌∷◌, ◌≡◌, refl, leb, if◌then◌else◌}
use otto_control.Licenses.Seats.{
  record_all, record_license_seat_usage, Seats, SeatReport, SeatUsage, enforce, blocked,
  overage_grace, reported,
}
use otto_control.Licenses.Grace.{record_license_seat_usage_grace}

abbrev report : SeatReport
report = record {
  license_id = "l1";
  deployment_id = "dep";
  active_seats = 7;
  seat_limit = 5;
  grace_period = 100;
  enforcement = enforce;
  reported_at = 10;
}

abbrev unused : Seats
unused = record { licenses = "l1" ∷ []; deployments = "dep" ∷ []; usage = [] }

abbrev middle : SeatReport
middle = record report { reported_at = 60 }

abbrev final : SeatReport
final = record report { reported_at = 110 }

abbrev used_once : SeatUsage
used_once = reported none report

abbrev used_twice : SeatUsage
used_twice = reported (some used_once) middle

abbrev used_thrice : SeatUsage
used_thrice = reported (some used_twice) final

abbrev with_usage : SeatUsage → Seats
with_usage u = record unused { usage = ("l1", u) ∷ [] }

record_license_seat_usage_grace_example :
    used_thrice.status ≡ (if leb (10 + 100) 110 then blocked else overage_grace)
unfolding record_license_seat_usage record_all
record_license_seat_usage_grace_example =
    record_license_seat_usage_grace unused report final (middle ∷ []) "l1" used_once used_thrice
      (with_usage used_once) (with_usage used_twice) (with_usage used_thrice) refl
      (refl, refl, refl) ((refl, refl, refl), tt) (refl, refl, refl) refl refl refl
