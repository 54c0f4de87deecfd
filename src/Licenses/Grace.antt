-- ===== src/Licenses/Grace.antt =====
-- The grace period runs from the first report above the limit.
use otto_control.Prelude.{
  ℕ, ◌+◌, String, true, Option, none, some, List, [], ◌∷◌, get, get-set, leb, ltb, All, ◌≡◌, refl,
  arith, Bool-cases, inl, inr, if◌then◌else◌,
}
use mathlib.Core.Path.{subst, sym, ap, ◌∙◌}
use otto_control.Errors.{ok, >>=-eq-ok, ok_inj}
use otto_control.Licenses.Seats.{
  Seats, SeatReport, SeatUsage, blocked, overage_grace, is_over, is_enforced, is_known,
  overage_start, seat_status, previous_start, reported, record_license_seat_usage, record_all,
  value_or,
}

-- A report of one license above its limit, under enforcement.
abbrev pub IsExcess : String → SeatReport → Type 0
IsExcess id i = (i.license_id ≡ id) × (is_over i ≡ true) × (is_enforced i ≡ true)

abbrev pub start_of : Seats → String → Option ℕ
start_of s id = previous_start (get id s.usage)

record_license_seat_usage-eq-ok :
    (s : Seats) (i : SeatReport) (u : SeatUsage) (s' : Seats)
    → record_license_seat_usage s i ≡ ok (u, s')
    → (reported (get i.license_id s.usage) i ≡ u) × (get i.license_id s'.usage ≡ some u)
unfolding record_license_seat_usage
record_license_seat_usage-eq-ok s i u s' e = elim (Bool-cases (ltb 0 i.seat_limit)) [
  | inr h ↦ absurd (ground (arith, rw (h, record_license_seat_usage) at e))
  | inl h ↦ elim (Bool-cases (is_known s i)) [
    | inr q ↦ absurd (ground (arith, rw (h, record_license_seat_usage, q) at e))
    | inl q ↦
        let row = reported (get i.license_id s.usage) i in
        let pair = ok_inj (rw (h, record_license_seat_usage, q) at e) in
        let same : row ≡ u = ap (λ y. y.0) pair in
        let after = ap (λ y. y.1) pair in
        (
          same,
          subst (λ (t : Seats). get i.license_id t.usage ≡ some u) after
              (get-set i.license_id row s.usage ∙ ap some same),
        )
  ]
]

-- The start of the overage after an excessive report.
excess_start :
    (s : Seats) (i : SeatReport) (u : SeatUsage) (s' : Seats) (id : String)
    → IsExcess id i
    → record_license_seat_usage s i ≡ ok (u, s')
    → start_of s' id ≡ some (value_or (start_of s id) i.reported_at)
unfolding overage_start
excess_start s i u s' id (same, over, enforced) e =
    let (row, there) = record_license_seat_usage-eq-ok s i u s' e in
    let there1 : get id s'.usage ≡ some u = subst (λ k. get k s'.usage ≡ some u) same there in
    let start : u.overage_started_at ≡ some (value_or (start_of s i.license_id) i.reported_at) =
      rw (← row) (rw (overage_start, over, enforced) refl) in
    ap previous_start there1
    ∙ start
    ∙ subst
        (λ k.
          some (value_or (start_of s i.license_id) i.reported_at)
          ≡ some (value_or (start_of s k) i.reported_at))
        same refl

excess_keeps :
    (s : Seats) (is : List SeatReport) (s' : Seats) (id : String) (t : ℕ)
    → All (IsExcess id) is
    → start_of s id ≡ some t
    → record_all s is ≡ ok s'
    → start_of s' id ≡ some t
unfolding record_all
excess_keeps s [] s' id t all there e = subst (λ x. start_of x id ≡ some t) (ok_inj e) there
excess_keeps s (i ∷ is) s' id t all there e =
    let (x, p, q) = >>=-eq-ok (record_license_seat_usage s i) _ e in
    let next = excess_start s i x.0 x.1 id all.0 p in
    excess_keeps x.1 is s' id t all.1 (next ∙ ap (λ o. some (value_or o i.reported_at)) there) q

-- From the first report above the limit on, under enforcement and without a report within the
-- limit between, a license is blocked exactly when its grace period since that first report has
-- ended, and in grace before.
pub record_license_seat_usage_grace :
    (s : Seats) (first last : SeatReport) (between : List SeatReport) (id : String)
    (u u' : SeatUsage) (s1 s2 s3 : Seats)
    → start_of s id ≡ none
    → IsExcess id first
    → All (IsExcess id) between
    → IsExcess id last
    → record_license_seat_usage s first ≡ ok (u, s1)
    → record_all s1 between ≡ ok s2
    → record_license_seat_usage s2 last ≡ ok (u', s3)
    → u'.status ≡ (
        if leb (first.reported_at + last.grace_period) last.reported_at
        then blocked
        else overage_grace)
unfolding overage_start seat_status
record_license_seat_usage_grace s first last between id u u' s1 s2 s3 fresh f b
      (same, over, enforced) e1 e2 e3 =
    let began =
      excess_start s first u s1 id f e1 ∙ ap (λ o. some (value_or o first.reported_at)) fresh in
    let held = excess_keeps s1 between s2 id first.reported_at b began e2 in
    let held1 : start_of s2 last.license_id ≡ some first.reported_at =
      subst (λ k. start_of s2 k ≡ some first.reported_at) (sym same) held in
    let (row, there) = record_license_seat_usage-eq-ok s2 last u' s3 e3 in
    rw (← row) (rw (seat_status, over, enforced, overage_start, held1) refl)
