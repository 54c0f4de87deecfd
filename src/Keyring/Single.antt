-- ===== src/Keyring/Single.antt =====
-- At most one signing key is active, and no step loses it.
use otto_control.Prelude.{
  ℕ, ◌+◌, ◌≤◌, String, ◌===◌, true, false, some, get, set, count, All, All-set, All-get, find,
  find_sound, total-set, total_only, get-find, get-set, get-set_other, count-set, Option-cases, inl,
  inr, ◌≡◌, refl, arith, le→leb, le-total-get,
}
use mathlib.Core.Path.{◌∙◌}
use otto_control.Errors.{ok}
use otto_control.Keyring.Ring.{
  Ring, SigningKey, Transition, update_key, active_count, active_part, is_active, is_revoked,
  passes_checks, retire, activate, is_other_active,
}
use otto_control.Keyring.Transitions.{retire_previous, activate_signing_key, value_of}

pub record IsRing (ks : Ring) : Type 0 where
  pub unique : (k : String) → count k ks ≤ 1
  pub single : active_count ks ≤ 1
  pub checked : All (λ e. passes_checks e.1 ≡ true) ks

-- An update that keeps the rules is accepted.
pub update_key-IsRing :
    (ks : Ring) (k : String) (r old : SigningKey)
    → IsRing ks
    → get k ks ≡ some old
    → passes_checks r ≡ true
    → active_count ks + active_part r ≤ 1 + active_part old
    → (update_key k r ks ≡ ok (set k r ks)) × IsRing (set k r ks)
unfolding update_key
update_key-IsRing ks k r old c there good room =
    let exchange = total-set active_part k r ks there in
    let few : active_count (set k r ks) ≤ 1 = omega (arith, exchange, room) in
    (
      rw (update_key, good, le→leb (active_count (set k r ks)) 1 few) refl,
      record {
        unique = λ j. count-set j k r ks (c.unique j);
        single = few;
        checked = All-set (λ e. passes_checks e.1 ≡ true) k r ks good c.checked;
      },
    )

-- A ring in which a key that is not revoked stands and no other is active.
pub record IsCleared (ks : Ring) (k : String) (target : SigningKey) : Type 0 where
  pub ring : IsRing ks
  pub there : get k ks ≡ some target
  pub alone : active_count ks ≡ active_part target

-- What activation makes of such a ring.
pub cleared_activate :
    (ks : Ring) (k : String) (target : SigningKey) (at : ℕ)
    → IsCleared ks k target
    → is_revoked target.state ≡ false
    → (update_key k (activate at target) ks ≡ ok (set k (activate at target) ks))
      × IsRing (set k (activate at target) ks)
      × (active_count (set k (activate at target) ks) ≡ 1)
cleared_activate ks k target at c live =
    let good = All-get (λ e. passes_checks e.1 ≡ true) k ks c.ring.checked c.there in
    let good1 : passes_checks (activate at target) ≡ true = rw live at good in
    let (done, ring) =
      update_key-IsRing ks k (activate at target) target c.ring c.there good1
        (omega (arith, c.alone)) in
    let exchange = total-set active_part k (activate at target) ks c.there in
    (done, ring, omega (arith, exchange, c.alone))

retire_previous-IsCleared :
    (ks : Ring) (k : String) (target : SigningKey) (at : ℕ)
    → IsRing ks
    → get k ks ≡ some target
    → (ks1 : Ring) × (retire_previous ks (find (is_other_active k) ks) at ≡ ok ks1)
      × IsCleared ks1 k target
unfolding retire_previous
retire_previous-IsCleared ks k target at c there =
    elim (Option-cases (find (is_other_active k) ks)) [
      | inl alone ↦ (
        ks,
        rw (alone, retire_previous) refl,
        record {
          ring = c;
          there = there;
          alone = total_only (λ r. is_active r.state) k ks (c.unique k) there alone;
        },
      )
      | inr (e, found) ↦
          let other = find_sound (is_other_active k) ks found in
          let held = get-find (is_other_active k) ks (c.unique e.0) found in
          let good = All-get (λ e. passes_checks e.1 ≡ true) e.0 ks c.checked held in
          let was : is_active e.1.state ≡ true = ground (arith, other) in
          let apart : (e.0 === k) ≡ false = ground (arith, other) in
          let part : active_part e.1 ≡ 1 = rw was refl in
          let good1 : passes_checks (retire at e.1) ≡ true = retired_checks e.1 was good in
          let (done, ring) =
            update_key-IsRing ks e.0 (retire at e.1) e.1 c held good1
              (omega (arith, c.single, part)) in
          let exchange = total-set active_part e.0 (retire at e.1) ks held in
          let stays = get-set_other k e.0 (retire at e.1) ks apart ∙ there in
          let gone : active_count (set e.0 (retire at e.1) ks) ≡ 0 =
            omega (arith, exchange, part, c.single) in
          (
            set e.0 (retire at e.1) ks,
            rw (found, retire_previous) done,
            record {
              ring = ring;
              there = stays;
              alone =
                  ground
                    (arith, gone, le-total-get active_part k (set e.0 (retire at e.1) ks) stays);
            },
          )
    ]
  where
    retired_checks :
        (r : SigningKey)
        → is_active r.state ≡ true
        → passes_checks r ≡ true
        → passes_checks (retire at r) ≡ true
    retired_checks r a g = ground (arith, a, g)

-- On a ring with at most one active key the activation of any key that is not revoked succeeds,
-- and leaves that key as the only active one.
pub activate_signing_key_single :
    (ks : Ring) (k : String) (target : SigningKey) (at : ℕ)
    → IsRing ks
    → get k ks ≡ some target
    → is_revoked target.state ≡ false
    → (t : Transition) × (ks' : Ring) × (activate_signing_key ks k at ≡ ok (some t, ks'))
      × IsRing ks'
      × (get k ks' ≡ some (activate at target))
      × (active_count ks' ≡ 1)
unfolding activate_signing_key
activate_signing_key_single ks k target at c there live =
    let (ks1, done, cleared) = retire_previous-IsCleared ks k target at c there in
    let (done1, ring, one) = cleared_activate ks1 k target at cleared live in
    (
      record {
        key = activate at target;
        active_key = some (activate at target);
        previous_active_key = value_of (find (is_other_active k) ks);
      },
      set k (activate at target) ks1,
      rw (there, activate_signing_key, live, done, done1) refl,
      ring,
      get-set k (activate at target) ks1,
      one,
    )
