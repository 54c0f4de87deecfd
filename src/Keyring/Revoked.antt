-- ===== src/Keyring/Revoked.antt =====
-- A revocation hands the active state over and loses no active key.
use otto_control.Prelude.{
  String, ◌===◌, true, false, none, some, get, set, total-set, get-set, get-set_other, ◌≡◌, refl,
  arith, Bool-cases, inl, inr, ===_eq, ===_refl, le-total-get,
}
use mathlib.Core.Path.{sym, ◌∙◌}
use otto_control.Errors.{ok}
use otto_control.Keyring.Ring.{
  Ring, SigningKey, Transition, active_count, active_part, is_active, is_revoked, activate,
}
use otto_control.Keyring.Transitions.{
  RevokeInput, revoke, find_replacement, revoke_active, revoke_signing_key, find_active,
}
use otto_control.Keyring.Single.{IsRing, update_key-IsRing, cleared_activate}

===_sym : (s t : String) → (s === t) ≡ false → (t === s) ≡ false
===_sym s t h = elim (Bool-cases (t === s)) [
  | inr f ↦ f
  | inl e ↦ let same : t ≡ s = ===_eq t s e in absurd (ground (arith, h, ===_refl s, rw same at h))
]

find_replacement_found :
    (ks : Ring) (i : RevokeInput) (k : String) (r : SigningKey)
    → i.replacement_key_id ≡ some k
    → (k === "") ≡ false
    → (k === i.key_id) ≡ false
    → get k ks ≡ some r
    → is_revoked r.state ≡ false
    → find_replacement ks i ≡ ok (k, r)
unfolding find_replacement
find_replacement_found ks i k r named filled apart there live =
    rw (named, find_replacement, filled, apart, there, live) refl

-- The active key is revoked when another key that is not revoked is named in its place: the
-- revocation succeeds, and the replacement is the only active key afterwards.
pub revoke_signing_key_hands_over :
    (ks : Ring) (i : RevokeInput) (target : SigningKey) (k : String) (r : SigningKey)
    → IsRing ks
    → get i.key_id ks ≡ some target
    → is_active target.state ≡ true
    → i.replacement_key_id ≡ some k
    → (k === "") ≡ false
    → (k === i.key_id) ≡ false
    → get k ks ≡ some r
    → is_revoked r.state ≡ false
    → (t : Transition) × (ks' : Ring) × (revoke_signing_key ks i ≡ ok (some t, ks'))
      × IsRing ks'
      × (get i.key_id ks' ≡ some (revoke i target))
      × (get k ks' ≡ some (activate i.changed_at r))
      × (active_count ks' ≡ 1)
unfolding revoke_signing_key revoke_active
revoke_signing_key_hands_over ks i target k r c there was named filled apart held live =
    let apart1 = ===_sym k i.key_id apart in
    let row = revoke i target in
    let part : active_part target ≡ 1 = rw was refl in
    let (done, ring) =
      update_key-IsRing ks i.key_id row target c there refl (omega (arith, c.single)) in
    let ks1 = set i.key_id row ks in
    let stays : get k ks1 ≡ some r = get-set_other k i.key_id row ks apart1 ∙ held in
    let exchange = total-set active_part i.key_id row ks there in
    let gone : active_count ks1 ≡ 0 = omega (arith, exchange, part, c.single) in
    let idle : active_part r ≡ 0 = ground (arith, gone, le-total-get active_part k ks1 stays) in
    let (done1, ring1, one) =
      cleared_activate ks1 k r i.changed_at
        (record { ring = ring; there = stays; alone = gone ∙ sym idle }) live in
    let found = find_replacement_found ks i k r named filled apart held live in
    let not_revoked : is_revoked target.state ≡ false = ground (arith, was) in
    (
      record {
        key = row;
        active_key = some (activate i.changed_at r);
        previous_active_key = some target;
      },
      set k (activate i.changed_at r) ks1,
      rw (there, revoke_signing_key, not_revoked, was, revoke_active, found, done, done1) refl,
      ring1,
      get-set_other i.key_id k (activate i.changed_at r) ks1 apart ∙ get-set i.key_id row ks,
      get-set k (activate i.changed_at r) ks1,
      one,
    )

-- The revocation of a key that is neither active nor revoked succeeds and leaves every other key
-- as it is, so that as many keys are active as there were.
pub revoke_signing_key_idle :
    (ks : Ring) (i : RevokeInput) (target : SigningKey) (k : String)
    → IsRing ks
    → get i.key_id ks ≡ some target
    → is_active target.state ≡ false
    → is_revoked target.state ≡ false
    → (i.key_id === k) ≡ false
    → (t : Transition) × (ks' : Ring) × (revoke_signing_key ks i ≡ ok (some t, ks'))
      × IsRing ks'
      × (get i.key_id ks' ≡ some (revoke i target))
      × (get k ks' ≡ get k ks)
      × (active_count ks' ≡ active_count ks)
unfolding revoke_signing_key
revoke_signing_key_idle ks i target k c there idle live other =
    let row = revoke i target in
    let part : active_part target ≡ 0 = rw idle refl in
    let (done, ring) =
      update_key-IsRing ks i.key_id row target c there refl (omega (arith, c.single)) in
    let exchange = total-set active_part i.key_id row ks there in
    (
      record {
        key = row;
        active_key = find_active (set i.key_id row ks);
        previous_active_key = none;
      },
      set i.key_id row ks,
      rw (there, revoke_signing_key, live, idle, done) refl,
      ring,
      get-set i.key_id row ks,
      get-set_other k i.key_id row ks other,
      omega (arith, exchange, part),
    )
