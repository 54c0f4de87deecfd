-- ===== src/Keyring/Ring.antt =====
-- The table `control_signing_keys` and the statements that read and write it.
use otto_control.Prelude.{
  ℕ, String, ◌===◌, Bool, true, false, not, ◌&&◌, ◌||◌, Option, none, some, List, Map, get, set,
  values, leb, ltb, ◌==◌, if◌then◌else◌, is_some, total, one_if, sort_by,
}
use otto_control.Errors.{Result, ok, err, conflict, database, unique_violation, check_violation}
use otto_control.Federation.Grants.{or_else}

pub data Provider : Type 0 where
  local kms hsm : Provider

pub data KeyState : Type 0 where
  standby active retired revoked : KeyState

pub record SigningKey : Type 0 where
  pub public_key_pem : String
  pub provider : Provider
  pub state : KeyState
  pub created_at : ℕ
  pub activated_at : Option ℕ
  pub retired_at : Option ℕ
  pub revoked_at : Option ℕ
  pub revocation_reason : Option String
  pub updated_at : ℕ

-- The rows under their primary key.
abbrev pub Ring : Type 0
Ring = Map SigningKey

pub record Transition : Type 0 where
  pub key : SigningKey
  pub active_key : Option SigningKey
  pub previous_active_key : Option SigningKey

abbrev pub is_provider : Provider → Provider → Bool
is_provider local local = true
is_provider kms kms = true
is_provider hsm hsm = true
is_provider _ _ = false

abbrev pub is_active : KeyState → Bool
is_active active = true
is_active _ = false

abbrev pub is_revoked : KeyState → Bool
is_revoked revoked = true
is_revoked _ = false

abbrev pub active_part : SigningKey → ℕ
active_part r = one_if (is_active r.state)

abbrev pub active_count : Ring → ℕ
active_count ks = total (λ e. active_part e.1) ks

-- `(state = 'revoked') = (revoked_at IS NOT NULL)`, and the same of the reason.
abbrev pub passes_checks : SigningKey → Bool
passes_checks r =
    if is_revoked r.state
    then is_some r.revoked_at && is_some r.revocation_reason
    else not (is_some r.revoked_at) && not (is_some r.revocation_reason)

-- `UPDATE … WHERE key_id = $1`, under the checks and the unique index on the active state.
unfoldable pub update_key : String → SigningKey → Ring → Result Ring
update_key k r ks =
    let ks' = set k r ks in
    if not (passes_checks r)
    then err (database check_violation)
    else if leb (active_count ks') 1
    then ok ks'
    else err (database unique_violation)

pub record KeyInput : Type 0 where
  pub key_id : String
  pub public_key_pem : String
  pub provider : Provider

abbrev pub new_key : KeyInput → ℕ → SigningKey
new_key i now = record {
  public_key_pem = i.public_key_pem;
  provider = i.provider;
  state = standby;
  created_at = now;
  activated_at = none;
  retired_at = none;
  revoked_at = none;
  revocation_reason = none;
  updated_at = now;
}

unfoldable pub register_signing_key : Ring → KeyInput → ℕ → Result (SigningKey × Ring)
register_signing_key ks i now = elim (get i.key_id ks) [
  | none ↦ ok (new_key i now, set i.key_id (new_key i now) ks)
  | some r ↦
      if r.public_key_pem === i.public_key_pem && is_provider r.provider i.provider
      then ok (r, ks)
      else err (conflict "signing key id is already bound to another provider or public key")
]

unfoldable pub get_signing_key : Ring → String → Option SigningKey
get_signing_key ks k = get k ks

-- `CASE state WHEN 'active' THEN 0 WHEN 'standby' THEN 1 WHEN 'retired' THEN 2 ELSE 3 END`.
abbrev pub rank : KeyState → ℕ
rank active = 0
rank standby = 1
rank retired = 2
rank revoked = 3

abbrev pub listed_before : SigningKey → SigningKey → Bool
listed_before x y =
    ltb (rank x.state) (rank y.state)
    || (rank x.state == rank y.state && ltb y.created_at x.created_at)

unfoldable pub list_signing_keys : Ring → List SigningKey
list_signing_keys ks = sort_by listed_before (values ks)

abbrev pub is_other_active : String → String × SigningKey → Bool
is_other_active k e = is_active e.1.state && not (e.0 === k)

abbrev pub retire : ℕ → SigningKey → SigningKey
retire at r = record r { state = retired; retired_at = some at; updated_at = at }

abbrev pub activate : ℕ → SigningKey → SigningKey
activate at r = record r {
  state = active;
  activated_at = or_else r.activated_at at;
  retired_at = none;
  updated_at = at;
}
