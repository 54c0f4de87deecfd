-- ===== src/Commerce/Lost.antt =====
-- A change that was read before a revocation of the license and is written after it.
use otto_control.Prelude.{
  ℕ, String, ◌==◌, ==_iff, Bool, true, false, Bool-cases, inl, inr, Option, none, some, Map, get,
  set, get-set, is_some, any, ltb, ◌≡◌, refl, sym, ap, ◌∙◌,
}
use otto_control.Errors.{ok, ◌>>=◌, ok_inj, >>=-eq-ok}
use otto_control.Commerce.Records.{License, Store, write_license, passes_checks}
use otto_control.Commerce.Store.{
  LicenseUpdate, update_license, update_current, change_rebound, write_change, updated_row, rebind,
  log_change, is_logged, clear_usage, revoke, revoke_license, unique_as,
}
use otto_control.Commerce.Changes.{
  Service, Change, change_license, store_change, finish_change, candidate, update_of, record_event,
  renewal,
}
use otto_control.Commerce.Revisions.{
  unless_some-eq-ok, unless_none, change_license-IsChanged, update_license-IsWritten,
  unique_as-eq-ok, finish_change-eq-ok,
}

-- The store with other rows in the table of licenses.
abbrev with_licenses : Map License → Store → Store
with_licenses m s = record s { licenses = m }

write_license_elsewhere :
    (l : License) (m : Map License) (s : Store) {s1 : Store}
    → write_license l s ≡ ok s1
    → write_license l (with_licenses m s) ≡ ok (with_licenses (set l.id l m) s1)
unfolding write_license
write_license_elsewhere l m s {s1} e = elim (Bool-cases (passes_checks l)) [
  | inl h ↦ elim (Bool-cases (is_some (get l.deployment_id s.deployments))) [
    | inl k ↦
        let same = ok_inj (rw (h, k) at e) in
        rw (h, k) (ap (λ x. ok (with_licenses (set l.id l m) x)) same)
    | inr k ↦ let impossible = rw (h, k) at e in cc
  ]
  | inr h ↦ let impossible = rw h at e in cc
]

log_change_elsewhere :
    (i : LicenseUpdate) (at : ℕ) (m : Map License) (s : Store) {s1 : Store}
    → log_change i at s ≡ ok s1
    → log_change i at (with_licenses m s) ≡ ok (with_licenses m s1)
unfolding log_change
log_change_elsewhere i at m s {s1} e = elim (Bool-cases (ltb 1 i.license.revision)) [
  | inl h ↦ elim (Bool-cases (any (is_logged i.license.id i.license.revision) s.lifecycle)) [
    | inl k ↦ let impossible = rw (h, k) at e in cc
    | inr k ↦ rw (h, k) (ap (λ x. ok (with_licenses m x)) (ok_inj (rw (h, k) at e)))
  ]
  | inr h ↦ let impossible = rw h at e in cc
]

clear_usage_elsewhere :
    (reset : Bool) (id : String) (m : Map License) (s : Store)
    → clear_usage reset id (with_licenses m s) ≡ with_licenses m (clear_usage reset id s)
unfolding clear_usage
clear_usage_elsewhere true id m s = refl
clear_usage_elsewhere false id m s = refl

-- Whether a change can be written does not depend on the rows of licenses, its own included.
write_change_elsewhere :
    (x : License) (i : LicenseUpdate) (at : ℕ) (m : Map License) (s : Store) {o : Option License}
    {s2 : Store}
    → write_change x i at s ≡ ok (o, s2)
    → (s3 : Store) × (write_change x i at (with_licenses m s) ≡ ok (o, s3))
unfolding write_change
write_change_elsewhere x i at m s {o} {s2} e =
    let row = updated_row x i at in
    let m1 = set row.id row m in
    let (s1, written, rest) = >>=-eq-ok (write_license row s) _ e in
    let (s4, logged, done) =
      >>=-eq-ok (log_change i at (clear_usage i.reset_seat_usage i.license.id s1)) _ rest in
    let again = write_license_elsewhere row m s written in
    let cleared = clear_usage_elsewhere i.reset_seat_usage i.license.id m1 s1 in
    let later =
      log_change_elsewhere i at m1 (clear_usage i.reset_seat_usage i.license.id s1) logged in
    (
      with_licenses m1 s4,
      rw (again, cleared, later) (ap (λ p. ok (p.0, with_licenses m1 s4)) (ok_inj done)),
    )

update_current_opens :
    (x : License) (i : LicenseUpdate) (at : ℕ) (s : Store)
    → i.binding ≡ none
    → (x.revision == i.expected_revision) ≡ true
    → update_current x i at s ≡ write_change x i at s
unfolding update_current rebind change_rebound
update_current_opens x i at s unbound same = rw (same, unbound, rebind) refl

update_license_opens :
    (x : License) (i : LicenseUpdate) (at : ℕ) (s : Store)
    → get i.license.id s.licenses ≡ some x
    → i.binding ≡ none
    → (x.revision == i.expected_revision) ≡ true
    → update_license i at s
      ≡ unique_as "License lifecycle change conflicts with an existing binding"
          (write_change x i at s)
unfolding update_license
update_license_opens x i at s there unbound same =
    rw (there, update_license) (ap (unique_as _) (update_current_opens x i at s unbound same))

-- The revocation is no hindrance to an update that expects the revision from before it.
update_after_revocation :
    (i : LicenseUpdate) (at r u : ℕ) (x : License) (s : Store) {o : Option License} {s1 : Store}
    → get i.license.id s.licenses ≡ some x
    → i.binding ≡ none
    → (x.revision == i.expected_revision) ≡ true
    → update_license i at s ≡ ok (o, s1)
    → (s2 : Store) × (update_license i at (revoke_license i.license.id r u s).1 ≡ ok (o, s2))
unfolding revoke_license revoke write_change updated_row unique_as
update_after_revocation i at r u x s {o} {s1} there unbound same e =
    let m = set i.license.id (revoke r u x) s.licenses in
    let first = sym (update_license_opens x i at s there unbound same) ∙ e in
    let written = unique_as-eq-ok _ (write_change x i at s) first in
    let (s3, again) = write_change_elsewhere x i at m s written in
    let found = get-set i.license.id (revoke r u x) s.licenses in
    let opened = update_license_opens (revoke r u x) i at (with_licenses m s) found unbound same in
    (s3, rw (there, revoke_license) (opened ∙ ap (unique_as _) again))

finish_change_finishes :
    (sv : Service) (c : Change) (a : String) (t : ℕ) (l : License) (s : Store)
    → (s1 : Store) × (finish_change sv c a t (some l, s) ≡ ok (l, s1))
unfolding finish_change
finish_change_finishes sv c a t l s = (_, refl)

-- A renewal that would be written before a revocation of the license is written after it too, and
-- then leaves the license unrevoked: the revocation is lost.
pub lost_revocation :
    (sv : Service) (x : License) (t g now r u : ℕ) (a : String) (s : Store) {l : License}
    {s1 : Store}
    → get x.id s.licenses ≡ some x
    → change_license sv x (renewal x t g) a now s ≡ ok (l, s1)
    → (s2 : Store) × (change_license sv x (renewal x t g) a now (revoke_license x.id r u s).1
        ≡ ok (l, s2))
      × (get x.id s2.licenses ≡ some l)
      × (l.revoked_at_ms ≡ none)
unfolding change_license store_change finish_change record_event update_of candidate renewal
    updated_row
lost_revocation sv x t g now r u a s {l} {s1} there e =
    let c = renewal x t g in
    let s' = (revoke_license x.id r u s).1 in
    let (unrevoked, went) = unless_some-eq-ok x.revoked_at_ms _ _ e in
    let (signed, signs, rest) =
      >>=-eq-ok (sv.sign (candidate x c now)) (store_change sv x c a now s) went in
    let i = update_of x c a now signed in
    let (answer, updated, rest2) =
      >>=-eq-ok (update_license i now s) (finish_change sv c a now) rest in
    let (some_l, _) = finish_change-eq-ok sv c a now answer.0 answer.1 rest2 in
    let same = (==_iff x.revision x.revision).1 refl in
    let (s2, again) = update_after_revocation i now r u x s there refl same updated in
    let again_l : update_license i now s' ≡ ok (some l, s2) = again ∙ ap (λ o. ok (o, s2)) some_l in
    let (s3, finished) = finish_change_finishes sv c a now l s2 in
    let redone : change_license sv x c a now s' ≡ ok (l, s3) =
      unless_none x.revoked_at_ms _ _ unrevoked
      ∙ ap (λ o. o >>= store_change sv x c a now s') signs
      ∙ ap (λ o. o >>= finish_change sv c a now) again_l
      ∙ finished in
    let row = (update_license-IsWritten i now s' again_l).row in
    (
      s3,
      redone,
      (change_license-IsChanged sv x c a now s' redone).left,
      ap (λ y. y.revoked_at_ms) row ∙ unrevoked,
    )
