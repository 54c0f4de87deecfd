-- ===== src/Keyring/Tests.antt =====
-- Runs of the signing keys on a ring of two.
use otto_control.Prelude.{
  String, none, some, [], ◌∷◌, ◌≡◌, refl, ◌≤◌, arith, get, Bool-cases, one_if, ◌===◌, ===_eq, ◌+◌,
  inl, inr,
}
use otto_control.Errors.{ok}
use otto_control.Keyring.Ring.{Ring, SigningKey, Transition, new_key, activate, local, active_count}
use otto_control.Keyring.Transitions.{activate_signing_key, revoke_signing_key, RevokeInput, revoke}
use otto_control.Keyring.Single.{IsRing, activate_signing_key_single}
use otto_control.Keyring.Revoked.{revoke_signing_key_hands_over, revoke_signing_key_idle}

abbrev first_row : SigningKey
first_row =
    activate 2 (new_key (record { key_id = "k1"; public_key_pem = "p1"; provider = local }) 1)

abbrev second_row : SigningKey
second_row = new_key (record { key_id = "k2"; public_key_pem = "p2"; provider = local }) 1

abbrev pair : Ring
pair = ("k1", first_row) ∷ ("k2", second_row) ∷ []

pair-IsRing : IsRing pair
pair-IsRing = record { unique = λ k. once k; single = omega arith; checked = (refl, (refl, tt)) }
  where
    once : (k : String) → one_if ("k1" === k) + (one_if ("k2" === k) + 0) ≤ 1
    once k = elim (Bool-cases ("k1" === k)) [
      | inr h ↦ elim (Bool-cases ("k2" === k)) [
        | inl q ↦ rw (h, q) (omega arith)
        | inr q ↦ rw (h, q) (omega arith)
      ]
      | inl h ↦ let same : "k1" ≡ k = ===_eq "k1" k h in rw (← same) (omega arith)
    ]

activate_signing_key_single_example :
    (t : Transition) × (ks' : Ring) × (activate_signing_key pair "k2" 5 ≡ ok (some t, ks'))
    × IsRing ks'
    × (get "k2" ks' ≡ some (activate 5 second_row))
    × (active_count ks' ≡ 1)
activate_signing_key_single_example =
    activate_signing_key_single pair "k2" second_row 5 pair-IsRing refl refl

abbrev exchange : RevokeInput
exchange = record {
  key_id = "k1";
  replacement_key_id = some "k2";
  reason = "leaked";
  changed_at = 6;
}

revoke_signing_key_hands_over_example :
    (t : Transition) × (ks' : Ring) × (revoke_signing_key pair exchange ≡ ok (some t, ks'))
    × IsRing ks'
    × (get "k1" ks' ≡ some (revoke exchange first_row))
    × (get "k2" ks' ≡ some (activate 6 second_row))
    × (active_count ks' ≡ 1)
revoke_signing_key_hands_over_example =
    revoke_signing_key_hands_over pair exchange first_row "k2" second_row pair-IsRing refl refl refl
      refl refl refl refl

abbrev disposal : RevokeInput
disposal = record exchange { key_id = "k2"; replacement_key_id = none }

revoke_signing_key_idle_example :
    (t : Transition) × (ks' : Ring) × (revoke_signing_key pair disposal ≡ ok (some t, ks'))
    × IsRing ks'
    × (get "k2" ks' ≡ some (revoke disposal second_row))
    × (get "k1" ks' ≡ get "k1" pair)
    × (active_count ks' ≡ active_count pair)
revoke_signing_key_idle_example =
    revoke_signing_key_idle pair disposal second_row "k1" pair-IsRing refl refl refl refl
