-- ===== src/Commerce/LeaseWindow.antt =====
-- What a lease that was issued promises.
use otto_control.Prelude.{
  ℕ, ◌+◌, ◌<◌, String, ◌===◌, Bool, true, false, Bool-cases, inl, inr, Option, none, some, get,
  is_some, ltb, ltb→lt, not, ◌≡◌, refl, sym, ap,
}
use mathlib.Core.Path.{subst}
use otto_control.Errors.{Failure, Result, ok, err, ok_inj, >>=-eq-ok, ensure-eq-ok}
use otto_control.Requests.{present, is_undefined, object_value, field}
use otto_control.Licenses.Seats.{SeatStatus, SeatUsage, blocked, unreported}
use otto_control.Audit.Canonical.{Json, Entries}
use otto_control.Commerce.Records.{License, Store}
use otto_control.Commerce.LeaseChecks.{
  Lease, LeaseService, check_lease, check_license, check_body, check_bearer, check_binding,
  is_nonce_text,
}
use otto_control.Commerce.Leases.{
  is_status, report_seats, seat_grace, make_lease, signed_lease, is_enforced, lease_reported,
  lease_counted, lease_seats, lease_fresh, lease_checked, issue_lease,
}
use otto_control.Commerce.LeaseTimes.{Open, IsLive, make_lease-IsLive, report_seats-Open}

signed_lease-eq-ok :
    (sv : LeaseService) (x : Lease) {a : Lease × String × String}
    → signed_lease sv x ≡ ok a
    → x ≡ a.0
unfolding signed_lease
signed_lease-eq-ok sv x e =
    let (signed, signs, done) = >>=-eq-ok (sv.sign_lease x) _ e in ap (λ p. p.0) (ok_inj done)

module _ (sv : LeaseService) (l : License) (id : String) (now : ℕ)
    (lasts : 0 < sv.lease_duration_ms) (valid : now < l.expires_at_ms + l.grace_period_ms) where
  made_lease :
      (count : Option ℕ) (status : SeatStatus) (end : Option ℕ) {a : Lease × String × String}
      → Open status end now
      → signed_lease sv (make_lease sv l id count status end now) ≡ ok a
      → IsLive sv l now a.0
  made_lease count status end opened e =
      subst (IsLive sv l now) (signed_lease-eq-ok sv _ e)
        (make_lease-IsLive sv l id count status end now lasts valid opened)

  lease_reported-IsLive :
      (count : ℕ) (s : Store) (r : Result (SeatUsage × Store)) {a : Lease × String × String}
      → r ≡ report_seats sv l count now s
      → (lease_reported sv l id count now s r).0 ≡ ok a
      → IsLive sv l now a.0
  unfolding lease_reported
  lease_reported-IsLive count s (err failure) same e = cc
  lease_reported-IsLive count s (ok (u, s1)) same e =
      elim (Bool-cases (is_status u.status blocked)) [
        | inl h ↦ let impossible = rw h at e in cc
        | inr h ↦
            made_lease (some count) u.status u.grace_expires_at
              (report_seats-Open sv l count now s (sym same) h) (rw h at e)
      ]

  lease_counted-IsLive :
      (s : Store) (r : Result ℕ) {a : Lease × String × String}
      → (lease_counted sv l id now s r).0 ≡ ok a
      → IsLive sv l now a.0
  unfolding lease_counted
  lease_counted-IsLive s (err failure) e = cc
  lease_counted-IsLive s (ok count) e =
      lease_reported-IsLive count s (report_seats sv l count now s) refl e

  lease_seats-IsLive :
      (count : Json) (s : Store) {a : Lease × String × String}
      → (lease_seats sv l count id now s).0 ≡ ok a
      → IsLive sv l now a.0
  unfolding lease_seats seat_grace
  lease_seats-IsLive count s e = elim (Bool-cases (is_undefined count)) [
    | inl h ↦ elim (Bool-cases (is_enforced l.seat_enforcement)) [
      | inl k ↦ let impossible = rw (h, k) at e in cc
      | inr k ↦ made_lease none unreported none (refl, tt) (rw (h, k) at e)
    ]
    | inr h ↦ lease_counted-IsLive s _ (rw h at e)
  ]

  lease_fresh-IsLive :
      (body : Entries) (s : Store) (r : Result (Bool × Store)) {a : Lease × String × String}
      → (lease_fresh sv l body id now s r).0 ≡ ok a
      → IsLive sv l now a.0
  unfolding lease_fresh
  lease_fresh-IsLive body s (err failure) e = cc
  lease_fresh-IsLive body s (ok (false, s1)) e = cc
  lease_fresh-IsLive body s (ok (true, s1)) e =
      lease_seats-IsLive (field "activeSeatCount" body) s1 e

-- What the checks before the first write have found.
pub record IsEntitled (id : String) (now : ℕ) (s : Store) (l : License) : Type 0 where
  pub there : get id s.licenses ≡ some l
  pub online : l.offline ≡ false
  pub unrevoked : l.revoked_at_ms ≡ none
  pub valid : now < l.expires_at_ms + l.grace_period_ms

pub present-eq-ok {ℓ} :
    {A : Type ℓ} (o : Option A) (failure : Failure) {a : A} → present o failure ≡ ok a → o ≡ some a
unfolding present
present-eq-ok none failure e = cc
present-eq-ok (some b) failure e = ap some (ok_inj e)

pub not-is_some : (o : Option ℕ) → not (is_some o) ≡ true → o ≡ none
not-is_some none h = refl
not-is_some (some t) h = cc

not-true : (b : Bool) → not b ≡ true → b ≡ false
not-true false h = refl
not-true true h = cc

check_license-eq-ok :
    (sv : LeaseService) (l : License) (now : ℕ) {u : Unit {0}}
    → check_license sv l now ≡ ok u
    → (l.revoked_at_ms ≡ none) × (now < l.expires_at_ms + l.grace_period_ms)
unfolding check_license
check_license-eq-ok sv l now e =
    let (unrevoked, rest) = ensure-eq-ok (not (is_some l.revoked_at_ms)) _ _ e in
    let (valid, _) = ensure-eq-ok (ltb now (l.expires_at_ms + l.grace_period_ms)) _ _ rest in
    (not-is_some l.revoked_at_ms unrevoked, ltb→lt now (l.expires_at_ms + l.grace_period_ms) valid)

check_body-eq-ok :
    (sv : LeaseService) (l : License) (now : ℕ) (body : Entries) {a : License × Entries}
    → check_body sv l now body ≡ ok a
    → (l ≡ a.0) × (l.revoked_at_ms ≡ none) × (now < l.expires_at_ms + l.grace_period_ms)
unfolding check_body
check_body-eq-ok sv l now body e =
    let (_, bound, rest) = >>=-eq-ok (check_binding l body) _ e in
    let (named, rest2) = ensure-eq-ok (is_nonce_text sv.base.texts (field "nonce" body)) _ _ rest in
    let (_, usable, done) = >>=-eq-ok (check_license sv l now) _ rest2 in
    let (unrevoked, valid) = check_license-eq-ok sv l now usable in
    (ap (λ p. p.0) (ok_inj done), unrevoked, valid)

check_lease-IsEntitled :
    (sv : LeaseService) (license_id : String) (raw : Json) (bearer : String) (now : ℕ) (s : Store)
    {a : License × Entries}
    → check_lease sv license_id raw bearer now s ≡ ok a
    → IsEntitled license_id now s a.0
unfolding check_lease check_bearer
check_lease-IsEntitled sv license_id raw bearer now s {a} e =
    let (l, found, rest) =
      >>=-eq-ok (present (get license_id s.licenses) _) (check_bearer sv raw bearer now) e in
    let (online, rest2) = ensure-eq-ok (not l.offline) _ _ rest in
    let (_, rest3) = ensure-eq-ok (bearer === sv.lease_token l) _ _ rest2 in
    let (body, _, rest4) = >>=-eq-ok (object_value raw) (check_body sv l now) rest3 in
    let (same, unrevoked, valid) = check_body-eq-ok sv l now body rest4 in
    let entitled : IsEntitled license_id now s l = record {
      there = present-eq-ok (get license_id s.licenses) _ found;
      online = not-true l.offline online;
      unrevoked = unrevoked;
      valid = valid;
    } in
    subst (IsEntitled license_id now s) same entitled

lease_checked-IsLive :
    (sv : LeaseService) (license_id id : String) (now : ℕ) (s : Store)
    (r : Result (License × Entries)) {a : Lease × String × String}
    → 0 < sv.lease_duration_ms
    → ((b : License × Entries) → r ≡ ok b → IsEntitled license_id now s b.0)
    → (lease_checked sv id now s r).0 ≡ ok a
    → (l : License) × IsEntitled license_id now s l × IsLive sv l now a.0
unfolding lease_checked
lease_checked-IsLive sv license_id id now s (err failure) lasts checked e = cc
lease_checked-IsLive sv license_id id now s (ok (l, body)) lasts checked e =
    let entitled = checked (l, body) refl in
    (l, entitled, lease_fresh-IsLive sv l id now lasts entitled.valid body s _ e)

-- A lease that is issued is for a stored license that is online, not revoked and within its grace
-- period, and carries its machine, its revision and the instant of the request; it ends after that
-- instant, by the duration of leases at most; its status is not blocked; and without a reason for
-- grace it ends with the license at the latest.
pub issue_lease-IsLive :
    (sv : LeaseService) (license_id : String) (raw : Json) (bearer lease_id : String) (now : ℕ)
    (s : Store) {a : Lease × String × String}
    → 0 < sv.lease_duration_ms
    → (issue_lease sv license_id raw bearer lease_id now s).0 ≡ ok a
    → (l : License) × IsEntitled license_id now s l × IsLive sv l now a.0
unfolding issue_lease
issue_lease-IsLive sv license_id raw bearer lease_id now s lasts e =
    lease_checked-IsLive sv license_id lease_id now s (check_lease sv license_id raw bearer now s)
      lasts (λ b. check_lease-IsEntitled sv license_id raw bearer now s) e
