-- ===== src/Keyring/Transitions.antt =====
-- `activateSigningKey`, `retireSigningKey` and `revokeSigningKey` of src/storage/postgres-store.ts.
use otto_control.Prelude.{
  ℕ, String, ◌===◌, not, ◌&&◌, Option, none, some, get, values, if◌then◌else◌, find,
}
use otto_control.Errors.{Result, ok, err, conflict, ◌>>=◌, ◌>>◌, ensure}
use otto_control.Federation.Grants.{or_else}
use otto_control.Keyring.Ring.{
  Ring, SigningKey, standby, active, retired, revoked, Transition, activate, is_active,
  is_other_active, is_revoked, retire, update_key,
}

-- The active key that makes room, if there is another.
unfoldable pub retire_previous : Ring → Option (String × SigningKey) → ℕ → Result Ring
retire_previous ks none at = ok ks
retire_previous ks (some e) at = update_key e.0 (retire at e.1) ks

abbrev pub value_of : Option (String × SigningKey) → Option SigningKey
value_of none = none
value_of (some e) = some e.1

unfoldable pub activate_signing_key : Ring → String → ℕ → Result (Option Transition × Ring)
activate_signing_key ks k at = elim (get k ks) [
  | none ↦ ok (none, ks)
  | some target ↦ do
    ensure (not (is_revoked target.state)) (conflict "revoked signing key cannot be activated")
    ks1 ← retire_previous ks (find (is_other_active k) ks) at
    ks2 ← update_key k (activate at target) ks1
    ok (
      some (record {
        key = activate at target;
        active_key = some (activate at target);
        previous_active_key = value_of (find (is_other_active k) ks);
      }),
      ks2,
    )
]

abbrev pub find_active : Ring → Option SigningKey
find_active ks = find (λ r. is_active r.state) (values ks)

abbrev pub retire_idle : ℕ → SigningKey → SigningKey
retire_idle at r = record r {
  state = retired;
  retired_at = or_else r.retired_at at;
  updated_at = at;
}

unfoldable pub retire_signing_key : Ring → String → ℕ → Result (Option Transition × Ring)
retire_signing_key ks k at = elim (get k ks) [
  | none ↦ ok (none, ks)
  | some r ↦ elim r.state [
    | active ↦ err (conflict "activate a replacement before retiring the active key")
    | revoked ↦ err (conflict "revoked signing key cannot be retired")
    | standby ↦ retired_as (retire_idle at r)
    | retired ↦ retired_as (retire_idle at r)
  ]
]
  where
    retired_as : SigningKey → Result (Option Transition × Ring)
    retired_as r = do
      ks' ← update_key k r ks
      ok (some (record { key = r; active_key = find_active ks'; previous_active_key = none }), ks')

pub record RevokeInput : Type 0 where
  pub key_id : String
  pub replacement_key_id : Option String
  pub reason : String
  pub changed_at : ℕ

abbrev pub revoke : RevokeInput → SigningKey → SigningKey
revoke i r = record r {
  state = revoked;
  revoked_at = some i.changed_at;
  revocation_reason = some i.reason;
  retired_at = or_else r.retired_at i.changed_at;
  updated_at = i.changed_at;
}

-- The replacement that the revocation of the active key wants.
unfoldable pub find_replacement : Ring → RevokeInput → Result (String × SigningKey)
find_replacement ks i =
    let wanted = conflict "revoking the active key requires a different replacement key" in
    elim i.replacement_key_id [
      | none ↦ err wanted
      | some k ↦ do
        ensure (not (k === "") && not (k === i.key_id)) wanted
        elim (get k ks) [
          | none ↦ err (conflict "replacement signing key does not exist")
          | some r ↦ do
            ensure (not (is_revoked r.state))
                (conflict "revoked signing key cannot be used as a replacement")
            ok (k, r)
        ]
    ]

unfoldable pub revoke_active : Ring → RevokeInput → SigningKey → Result (Option Transition × Ring)
revoke_active ks i target = do
  (k, r) ← find_replacement ks i
  ks1 ← update_key i.key_id (revoke i target) ks
  ks2 ← update_key k (activate i.changed_at r) ks1
  ok (
    some (record {
      key = revoke i target;
      active_key = some (activate i.changed_at r);
      previous_active_key = some target;
    }),
    ks2,
  )

unfoldable pub revoke_signing_key : Ring → RevokeInput → Result (Option Transition × Ring)
revoke_signing_key ks i = elim (get i.key_id ks) [
  | none ↦ ok (none, ks)
  | some target ↦
      if is_revoked target.state
      then ok (
        some (record { key = target; active_key = find_active ks; previous_active_key = none }),
        ks,
      )
      else if is_active target.state
      then revoke_active ks i target
      else (do
        ks1 ← update_key i.key_id (revoke i target) ks
        ok (
          some (record {
            key = revoke i target;
            active_key = find_active ks1;
            previous_active_key = none;
          }),
          ks1,
        ))
]
