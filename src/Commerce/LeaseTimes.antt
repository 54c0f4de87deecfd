-- ===== src/Commerce/LeaseTimes.antt =====
-- The ends of leases and of the grace that seats have.
use otto_control.Prelude.{
  ℕ, suc, ◌+◌, ◌≤◌, ◌<◌, String, false, Bool-cases, Option-cases, inl, inr, Option, none, some,
  List, [], ◌∷◌, ◌++◌, All, All-append, map, get, ltb, leb, ◌≡◌, refl, sym, ap, ◌∙◌, arith,
}
use mathlib.Core.Path.{subst}
use otto_control.Errors.{ok, ok_inj, >>=-eq-ok}
use otto_control.Licenses.Seats.{
  SeatStatus, SeatUsage, SeatReport, Seats, record_license_seat_usage, reported, seat_status,
  blocked, overage_grace, is_over, is_enforced as report_enforced, is_known, is_grace_over,
  grace_end, overage_start,
}
use otto_control.Commerce.Records.{License, Store}
use otto_control.Commerce.LeaseChecks.{GraceReason, Lease, LeaseService}
use otto_control.Commerce.Leases.{
  is_status, seats_of, seat_report, report_seats, expiry_grace, seat_grace, earliest, min, value_or,
  make_lease,
}

-- A status under which the deployment works, whose grace has not ended at an instant.
abbrev pub Open : SeatStatus → Option ℕ → ℕ → Type 0
Open status end now =
    (is_status status blocked ≡ false) × All (λ g. now < g.1) (seat_grace status end)

-- What is asked of a lease that is issued for a license.
pub record IsLive (sv : LeaseService) (l : License) (now : ℕ) (lease : Lease) : Type 0 where
  pub issued : lease.issued_at_ms ≡ now
  pub machine : lease.machine_fingerprint ≡ l.machine_fingerprint
  pub revision : lease.license_revision ≡ l.revision
  pub not_blocked : is_status lease.seat_status blocked ≡ false
  pub running : now < lease.expires_at_ms
  pub short : lease.expires_at_ms ≤ now + sv.lease_duration_ms
  pub regular : lease.grace_reasons ≡ [] → lease.expires_at_ms ≤ l.expires_at_ms

earliest_after :
    (now : ℕ) (gs : List (GraceReason × ℕ)) (d : ℕ)
    → All (λ g. now < g.1) gs
    → (gs ≡ [] → now < d)
    → now < value_or (earliest gs) d
unfolding earliest value_or
earliest_after now [] d a later = later refl
earliest_after now ((r, t) ∷ gs) d a later = elim (Option-cases (earliest gs)) [
  | inl gone ↦ rw (gone, earliest) a.0
  | inr (u, there) ↦
      let inner = earliest_after now gs (suc now) a.1 (λ e. omega arith) in
      let after : now < u = subst (λ o. now < value_or o (suc now)) there inner in
      let first : now < t = a.0 in rw (there, earliest) (ground arith)
]

no_grace_end :
    (gs : List (GraceReason × ℕ)) (d : ℕ) → map (λ g. g.0) gs ≡ [] → value_or (earliest gs) d ≤ d
unfolding earliest value_or
no_grace_end [] d e = omega arith
no_grace_end (g ∷ gs) d e = cc

min_after : (now a b : ℕ) → now < a → now < b → now < min a b
min_after now a b p q = ground arith

min_left : (a b : ℕ) → min a b ≤ a
min_left a b = ground arith

min_right : (a b : ℕ) → min a b ≤ b
min_right a b = ground arith

expiry_grace_after :
    (l : License) (now : ℕ)
    → now < l.expires_at_ms + l.grace_period_ms
    → All (λ g. now < g.1) (expiry_grace l now)
unfolding expiry_grace
expiry_grace_after l now valid = elim (Bool-cases (leb l.expires_at_ms now)) [
  | inl h ↦ rw h (valid, tt)
  | inr h ↦ rw h tt
]

before_expiry :
    (l : License) (now : ℕ) (more : List (GraceReason × ℕ))
    → expiry_grace l now ++ more ≡ []
    → now < l.expires_at_ms
unfolding expiry_grace
before_expiry l now more e = elim (Bool-cases (leb l.expires_at_ms now)) [
  | inl h ↦ let impossible = rw h at e in cc
  | inr h ↦ ground (arith, h)
]

pub make_lease-IsLive :
    (sv : LeaseService) (l : License) (id : String) (count : Option ℕ) (status : SeatStatus)
    (end : Option ℕ) (now : ℕ)
    → 0 < sv.lease_duration_ms
    → now < l.expires_at_ms + l.grace_period_ms
    → Open status end now
    → IsLive sv l now (make_lease sv l id count status end now)
unfolding make_lease
make_lease-IsLive sv l id count status end now lasts valid opened =
    let gs = expiry_grace l now ++ seat_grace status end in
    let a = now + sv.lease_duration_ms in
    let b = value_or (earliest gs) l.expires_at_ms in
    let every =
      All-append (λ g. now < g.1) (expiry_grace l now) (seat_grace status end)
        (expiry_grace_after l now valid) opened.1 in
    let after =
      earliest_after now gs l.expires_at_ms every (before_expiry l now (seat_grace status end)) in
    let soon : now < a = omega arith in
    record {
      issued = refl;
      machine = refl;
      revision = refl;
      not_blocked = opened.0;
      running = min_after now a b soon after;
      short = min_left a b;
      regular = λ e. omega (arith, min_right a b, no_grace_end gs l.expires_at_ms e);
    }

grace_left :
    (end : Option ℕ) (now : ℕ)
    → is_grace_over end now ≡ false
    → All (λ g. now < g.1) (seat_grace overage_grace end)
unfolding seat_grace
grace_left none now h = tt
grace_left (some t) now h = (ground (arith, h), tt)

seat_grace_after :
    (end : Option ℕ) (i : SeatReport)
    → All (λ g. i.reported_at < g.1) (seat_grace (seat_status end i) end)
unfolding seat_status seat_grace
seat_grace_after end i = elim (Bool-cases (is_over i)) [
  | inr h ↦ rw h tt
  | inl h ↦ elim (Bool-cases (report_enforced i)) [
    | inr k ↦ rw (h, k) tt
    | inl k ↦ elim (Bool-cases (is_grace_over end i.reported_at)) [
      | inl j ↦ rw (h, k, j) tt
      | inr j ↦ rw (h, k, j) (grace_left end i.reported_at j)
    ]
  ]
]

-- The status that a report leaves, unless it blocks.
reported-Open :
    (previous : Option SeatUsage) (i : SeatReport)
    → is_status (reported previous i).status blocked ≡ false
    → Open (reported previous i).status (reported previous i).grace_expires_at i.reported_at
reported-Open previous i free = (free, seat_grace_after (grace_end (overage_start previous i) i) i)

record_row :
    (s : Seats) (i : SeatReport) {answer : SeatUsage × Seats}
    → record_license_seat_usage s i ≡ ok answer
    → answer.0 ≡ reported (get i.license_id s.usage) i
unfolding record_license_seat_usage
record_row s i {answer} e = elim (Bool-cases (ltb 0 i.seat_limit)) [
  | inr h ↦ let impossible = rw h at e in cc
  | inl h ↦ elim (Bool-cases (is_known s i)) [
    | inr k ↦ let impossible = rw (h, k) at e in cc
    | inl k ↦ sym (ap (λ p. p.0) (ok_inj (rw (h, k) at e)))
  ]
]

pub report_seats-Open :
    (sv : LeaseService) (l : License) (count now : ℕ) (s : Store) {u : SeatUsage} {s1 : Store}
    → report_seats sv l count now s ≡ ok (u, s1)
    → is_status u.status blocked ≡ false
    → Open u.status u.grace_expires_at now
unfolding report_seats seat_report seats_of
report_seats-Open sv l count now s {u} {s1} e free =
    let i = seat_report l count now in
    let (answer, recorded, rest) = >>=-eq-ok (record_license_seat_usage (seats_of s) i) _ e in
    let same = record_row (seats_of s) i recorded in
    let row : u ≡ reported (get l.id s.seat_usage) i = sym (ap (λ p. p.0) (ok_inj rest)) ∙ same in
    subst (λ x. is_status x.status blocked ≡ false → Open x.status x.grace_expires_at now) (sym row)
      (reported-Open (get l.id s.seat_usage) i) free
