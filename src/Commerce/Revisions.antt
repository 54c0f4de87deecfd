-- ===== src/Commerce/Revisions.antt =====
-- Changes of a license that were read before another change of it was written.
use otto_control.Prelude.{
  ℕ, suc, String, ◌==◌, ==_iff, Bool, true, false, Bool-cases, Option-cases, inl, inr, Option, none,
  some, get, set, get-set, is_some, ◌≡◌, refl, sym, ap, ◌∙◌, arith, if◌then◌else◌, any, ltb,
}
use mathlib.Core.Option.{some_inj}
use otto_control.Errors.{Failure, Result, ok, err, conflict, ◌>>=◌, ok_inj, >>=-eq-ok}
use otto_control.Commerce.Records.{License, Store, write_license, passes_checks}
use otto_control.Commerce.Store.{
  LicenseUpdate, unique_as, update_license, update_current, change_rebound, write_change,
  updated_row, rebind, log_change, is_logged, clear_usage,
}
use otto_control.Commerce.Changes.{
  Service, Change, change_license, store_change, finish_change, candidate, update_of, record_event,
}

pub unique_as-eq-ok {ℓ} :
    {A : Type ℓ} (message : String) (r : Result A) {a : A} → unique_as message r ≡ ok a → r ≡ ok a
unfolding unique_as
unique_as-eq-ok message (err failure) e = cc
unique_as-eq-ok message (ok r) e = e

write_license-eq-ok :
    (l : License) (s : Store) {s1 : Store}
    → write_license l s ≡ ok s1
    → s1.licenses ≡ set l.id l s.licenses
unfolding write_license
write_license-eq-ok l s e = elim (Bool-cases (passes_checks l)) [
  | inl h ↦ elim (Bool-cases (is_some (get l.deployment_id s.deployments))) [
    | inl k ↦ sym (ap (λ x. x.licenses) (ok_inj (rw (h, k) at e)))
    | inr k ↦ let impossible = rw (h, k) at e in cc
  ]
  | inr h ↦ let impossible = rw h at e in cc
]

log_change-eq-ok :
    (i : LicenseUpdate) (at : ℕ) (s : Store) {s1 : Store}
    → log_change i at s ≡ ok s1
    → s1.licenses ≡ s.licenses
unfolding log_change
log_change-eq-ok i at s e = elim (Bool-cases (ltb 1 i.license.revision)) [
  | inl h ↦ elim (Bool-cases (any (is_logged i.license.id i.license.revision) s.lifecycle)) [
    | inl k ↦ let impossible = rw (h, k) at e in cc
    | inr k ↦ sym (ap (λ x. x.licenses) (ok_inj (rw (h, k) at e)))
  ]
  | inr h ↦ let impossible = rw h at e in cc
]

clear_usage_licenses :
    (reset : Bool) (id : String) (s : Store) → (clear_usage reset id s).licenses ≡ s.licenses
unfolding clear_usage
clear_usage_licenses true id s = refl
clear_usage_licenses false id s = refl

write_change-eq-ok :
    (current : License) (i : LicenseUpdate) (at : ℕ) (s : Store) {l : Option License} {s2 : Store}
    → write_change current i at s ≡ ok (l, s2)
    → (l ≡ some (updated_row current i at))
      × (get i.license.id s2.licenses ≡ some (updated_row current i at))
unfolding write_change updated_row
write_change-eq-ok current i at s {l} {s2} e =
    let (s1, written, rest) = >>=-eq-ok (write_license (updated_row current i at) s) _ e in
    let kept = clear_usage i.reset_seat_usage i.license.id s1 in
    let (s3, logged, done) = >>=-eq-ok (log_change i at kept) _ rest in
    let same = ok_inj done in
    let rows : s3.licenses ≡ set i.license.id (updated_row current i at) s.licenses =
      log_change-eq-ok i at kept logged
      ∙ clear_usage_licenses i.reset_seat_usage i.license.id s1
      ∙ write_license-eq-ok (updated_row current i at) s written in
    (
      sym (ap (λ x. x.0) same),
      ap (λ x. get i.license.id x.1.licenses) (sym same)
          ∙ ap (get i.license.id) rows
          ∙ get-set i.license.id (updated_row current i at) s.licenses,
    )

-- What a change that was written leaves: its row, under the next revision of an expected one.
pub record IsWritten (i : LicenseUpdate) (at : ℕ) (s s2 : Store) (l : License) : Type 0 where
  pub current : License
  pub there : get i.license.id s.licenses ≡ some current
  pub expected : current.revision ≡ i.expected_revision
  pub row : l ≡ updated_row current i at
  pub left : get i.license.id s2.licenses ≡ some l

change_rebound-eq-ok :
    (current : License) (i : LicenseUpdate) (at : ℕ) (s : Store) (bound : Option Store) {s2 : Store}
    {l : License}
    → change_rebound current i at s bound ≡ ok (some l, s2)
    → (l ≡ updated_row current i at) × (get i.license.id s2.licenses ≡ some l)
unfolding change_rebound
change_rebound-eq-ok current i at s none e = let impossible = ap (λ p. p.0) (ok_inj e) in cc
change_rebound-eq-ok current i at s (some s1) {s2} {l} e =
    let (row, left) = write_change-eq-ok current i at s1 e in (some_inj.0 row, left ∙ sym row)

update_current-eq-ok :
    (current : License) (i : LicenseUpdate) (at : ℕ) (s : Store) {s2 : Store} {l : License}
    → update_current current i at s ≡ ok (some l, s2)
    → (current.revision ≡ i.expected_revision)
      × (l ≡ updated_row current i at)
      × (get i.license.id s2.licenses ≡ some l)
unfolding update_current
update_current-eq-ok current i at s {s2} {l} e =
    elim (Bool-cases (current.revision == i.expected_revision)) [
      | inl same ↦
          let (bound, moved, rest) =
            >>=-eq-ok (rebind i.binding at s) (change_rebound current i at s) (rw same at e) in
          let (row, left) = change_rebound-eq-ok current i at s bound rest in
          ((==_iff current.revision i.expected_revision).0 same, row, left)
      | inr other ↦ let impossible = ap (λ p. p.0) (ok_inj (rw other at e)) in cc
    ]

pub update_license-IsWritten :
    (i : LicenseUpdate) (at : ℕ) (s : Store) {s2 : Store} {l : License}
    → update_license i at s ≡ ok (some l, s2)
    → IsWritten i at s s2 l
unfolding update_license
update_license-IsWritten i at s {s2} {l} e = elim (Option-cases (get i.license.id s.licenses)) [
  | inl gone ↦ let impossible = ap (λ p. p.0) (ok_inj (rw (gone, update_license) at e)) in cc
  | inr (current, there) ↦
      let went =
        unique_as-eq-ok _ (update_current current i at s) (rw (there, update_license) at e) in
      let (expected, row, left) = update_current-eq-ok current i at s went in
      record { current = current; there = there; expected = expected; row = row; left = left }
]

update_license_stale :
    (i : LicenseUpdate) (at : ℕ) (s : Store) (current : License)
    → get i.license.id s.licenses ≡ some current
    → (current.revision == i.expected_revision) ≡ false
    → update_license i at s ≡ ok (none, s)
unfolding update_license update_current unique_as
update_license_stale i at s current there other =
    rw (there, update_license) (rw (other, update_current) refl)

-- What a change that succeeded leaves.
pub record IsChanged (x : License) (c : Change) (s1 : Store) (l : License) : Type 0 where
  pub next : l.revision ≡ suc x.revision
  pub unrevoked : x.revoked_at_ms ≡ none
  pub left : get c.license.id s1.licenses ≡ some l

pub finish_change-eq-ok :
    (sv : Service) (c : Change) (a : String) (t : ℕ) (row : Option License) (s : Store) {s1 : Store}
    {l : License}
    → finish_change sv c a t (row, s) ≡ ok (l, s1)
    → (row ≡ some l) × (s1.licenses ≡ s.licenses)
unfolding finish_change record_event
finish_change-eq-ok sv c a t none s e = cc
finish_change-eq-ok sv c a t (some stored) s e =
    let same = ok_inj e in (ap (λ p. some p.0) same, sym (ap (λ p. p.1.licenses) same))

store_change-IsChanged :
    (sv : Service) (x : License) (c : Change) (a : String) (t : ℕ) (s : Store)
    (signed : String × String) {s1 : Store} {l : License}
    → x.revoked_at_ms ≡ none
    → store_change sv x c a t s signed ≡ ok (l, s1)
    → IsChanged x c s1 l
unfolding store_change update_of candidate updated_row
store_change-IsChanged sv x c a t s signed {s1} {l} unrevoked e =
    let i = update_of x c a t signed in
    let (answer, updated, rest) = >>=-eq-ok (update_license i t s) (finish_change sv c a t) e in
    let (there, kept) = finish_change-eq-ok sv c a t answer.0 answer.1 rest in
    let written =
      update_license-IsWritten i t s {s2 = answer.1} {l = l}
        (updated ∙ ap (λ o. ok (o, answer.1)) there) in
    record {
      next = ap (λ y. y.revision) written.row;
      unrevoked = unrevoked;
      left = ap (get c.license.id) kept ∙ written.left;
    }

pub unless_some-eq-ok {ℓ κ} :
    {A : Type ℓ} {B : Type κ} (o : Option B) (failure : Failure) (m : Result A) {a : A}
    → (if is_some o then err failure else m) ≡ ok a
    → (o ≡ none) × (m ≡ ok a)
unless_some-eq-ok none failure m e = (refl, e)
unless_some-eq-ok (some b) failure m e = cc

pub unless_none {ℓ κ} :
    {A : Type ℓ} {B : Type κ} (o : Option B) (failure : Failure) (m : Result A)
    → o ≡ none
    → (if is_some o then err failure else m) ≡ m
unless_none o failure m e = rw e refl

pub change_license-IsChanged :
    (sv : Service) (x : License) (c : Change) (a : String) (t : ℕ) (s : Store) {s1 : Store}
    {l : License}
    → change_license sv x c a t s ≡ ok (l, s1)
    → IsChanged x c s1 l
unfolding change_license
change_license-IsChanged sv x c a t s {s1} {l} e =
    let (unrevoked, went) = unless_some-eq-ok x.revoked_at_ms _ _ e in
    let (signed, signs, rest) =
      >>=-eq-ok (sv.sign (candidate x c t)) (store_change sv x c a t s) went in
    store_change-IsChanged sv x c a t s signed unrevoked rest

-- After a change of a license has been written, another change that was read at the same revision
-- is refused, if its signature is given, and it changes nothing.
pub change_license_once :
    (sv : Service) (x : License) (c d : Change) (a b : String) (t u : ℕ) (s : Store) {s1 : Store}
    {l : License} {signed : String × String}
    → change_license sv x c a t s ≡ ok (l, s1)
    → c.license.id ≡ d.license.id
    → sv.sign (candidate x d u) ≡ ok signed
    → change_license sv x d b u s1 ≡ err (conflict "License changed concurrently; reload and retry")
unfolding change_license store_change update_of candidate finish_change
change_license_once sv x c d a b t u s {s1} {l} {signed} e same signs =
    let done = change_license-IsChanged sv x c a t s e in
    let other : (l.revision == x.revision) ≡ false = ground (arith, done.next) in
    let there = ap (λ id. get id s1.licenses) (sym same) ∙ done.left in
    let refused = update_license_stale (update_of x d b u signed) u s1 l there other in
    unless_none x.revoked_at_ms _ _ done.unrevoked
    ∙ ap (λ r. r >>= store_change sv x d b u s1) signs
    ∙ ap (λ r. r >>= finish_change sv d b u) refused
