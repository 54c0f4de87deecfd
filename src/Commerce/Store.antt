-- ===== src/Commerce/Store.antt =====
-- createCustomer to updateLicense and consumeLeaseNonce of src/storage/postgres-store.ts.
use otto_control.Prelude.{
  ℕ, String, ◌===◌, ◌==◌, Bool, true, false, Option, none, some, List, [], ◌∷◌, ◌++◌, get, has, set,
  delete, select, any, not, ◌&&◌, ltb, if◌then◌else◌,
}
use otto_control.Errors.{
  Failure, Result, ok, err, conflict, database, check_violation, foreign_key_violation,
  unique_violation, ensure, ◌>>=◌, ◌>>◌,
}
use otto_control.Federation.Grants.{or_else}
use otto_control.Audit.Canonical.{Json}
use otto_control.Commerce.Records.{
  active, Customer, Deployment, License, LifecycleEvent, ChangeType, Nonce, Store, write_license,
  write_deployment,
}

abbrev pub is_unique : Failure → Bool
is_unique (database unique_violation) = true
is_unique _ = false

-- `catch` with one SQLSTATE that is made a conflict.
unfoldable pub unique_as {ℓ} : {A : Type ℓ} → String → Result A → Result A
unique_as message (err failure) = err (if is_unique failure then conflict message else failure)
unique_as message (ok r) = ok r

unfoldable pub create_customer : String → String → ℕ → Store → Result (Customer × Store)
create_customer id name at s =
    let row : Customer = record {
      id = id;
      name = name;
      status = active;
      created_at = at;
      updated_at = at;
    } in
    if has id s.customers
    then err (conflict "customer already exists")
    else ok (row, record s { customers = set id row s.customers })

-- A deployment with the name of its customer, as the join gives it.
unfoldable pub get_deployment : String → Store → Option (Deployment × String)
get_deployment id s = elim (get id s.deployments) [
  | none ↦ none
  | some d ↦ elim (get d.customer_id s.customers) [ none ↦ none | some c ↦ some (d, c.name) ]
]

unfoldable pub create_deployment : Deployment → Store → Result Store
create_deployment d s =
    if has d.id s.deployments then err (conflict "deployment already exists") else (do
      s1 ← unique_as "deployment already exists" (write_deployment d s)
      ensure (has d.customer_id s.customers) (conflict "customer does not exist") >> ok s1)

unfoldable pub create_license : License → Store → Result Store
create_license l s =
    if has l.id s.licenses then err (conflict "license already exists") else write_license l s

unfoldable pub revoke : ℕ → ℕ → License → License
revoke revoked_at at l = record l {
  revoked_at_ms = or_else l.revoked_at_ms revoked_at;
  updated_at = at;
}

unfoldable pub revoke_license : String → ℕ → ℕ → Store → Option License × Store
revoke_license id revoked_at at s = elim (get id s.licenses) [
  | none ↦ (none, s)
  | some l ↦ (
    some (revoke revoked_at at l),
    record s { licenses = set id (revoke revoked_at at l) s.licenses },
  )
]

pub record Binding : Type 0 where
  pub deployment_id : String
  pub expected_fingerprint : String
  pub new_fingerprint : String

pub record LicenseUpdate : Type 0 where
  pub license : License
  pub expected_revision : ℕ
  pub actor_id : String
  pub change_type : ChangeType
  pub change_detail : Json
  pub binding : Option Binding
  pub reset_seat_usage : Bool

unfoldable pub move_machine : ℕ → Binding → Deployment → Deployment
move_machine at b d = record d { machine_fingerprint = b.new_fingerprint; updated_at = at }

-- The change of the deployment's machine: `none` when the deployment is not the expected one.
unfoldable pub rebind : Option Binding → ℕ → Store → Result (Option Store)
rebind none at s = ok (some s)
rebind (some b) at s = elim (get b.deployment_id s.deployments) [
  | none ↦ ok none
  | some d ↦
      if d.machine_fingerprint === b.expected_fingerprint
      then (write_deployment (move_machine at b d) s >>= λ s1. ok (some s1))
      else ok none
]

unfoldable pub clear_usage : Bool → String → Store → Store
clear_usage reset id s = if reset then record s { seat_usage = delete id s.seat_usage } else s

unfoldable pub is_logged : String → ℕ → LifecycleEvent → Bool
is_logged id revision e = e.license_id === id && e.revision == revision

unfoldable pub log_change : LicenseUpdate → ℕ → Store → Result Store
log_change i at s =
    let row : LifecycleEvent = record {
      license_id = i.license.id;
      revision = i.license.revision;
      change_type = i.change_type;
      actor_id = i.actor_id;
      detail = i.change_detail;
      created_at = at;
    } in
    if not (ltb 1 i.license.revision)
    then err (database check_violation)
    else if any (is_logged i.license.id i.license.revision) s.lifecycle
    then err (database unique_violation)
    else ok (record s { lifecycle = s.lifecycle ++ (row ∷ []) })

-- The row that replaces the current one.
unfoldable pub updated_row : License → LicenseUpdate → ℕ → License
updated_row current i at = record i.license { created_at = current.created_at; updated_at = at }

-- The statements after the locks and the checks on the revision.
unfoldable pub write_change : License → LicenseUpdate → ℕ → Store → Result (Option License × Store)
write_change current i at s = do
  s1 ← write_license (updated_row current i at) s
  s2 ← log_change i at (clear_usage i.reset_seat_usage i.license.id s1)
  ok (some (updated_row current i at), s2)

unfoldable pub change_rebound :
    License → LicenseUpdate → ℕ → Store → Option Store → Result (Option License × Store)
change_rebound current i at s none = ok (none, s)
change_rebound current i at s (some s1) = write_change current i at s1

unfoldable pub update_current :
    License → LicenseUpdate → ℕ → Store → Result (Option License × Store)
update_current current i at s =
    if current.revision == i.expected_revision
    then (rebind i.binding at s >>= change_rebound current i at s)
    else ok (none, s)

unfoldable pub update_license : LicenseUpdate → ℕ → Store → Result (Option License × Store)
update_license i at s = elim (get i.license.id s.licenses) [
  | none ↦ ok (none, s)
  | some current ↦
      unique_as "License lifecycle change conflicts with an existing binding"
        (update_current current i at s)
]

unfoldable pub is_nonce : String → String → Nonce → Bool
is_nonce deployment_id nonce n = n.deployment_id === deployment_id && n.nonce === nonce

unfoldable pub live_nonces : ℕ → List Nonce → List Nonce
live_nonces now ns = select (λ n. not (ltb n.expires_at_ms now)) ns

unfoldable pub consume_lease_nonce : Nonce → ℕ → Store → Result (Bool × Store)
consume_lease_nonce n now s =
    let rest = live_nonces now s.lease_nonces in
    if any (is_nonce n.deployment_id n.nonce) rest
    then ok (false, record s { lease_nonces = rest })
    else if has n.deployment_id s.deployments
    then ok (true, record s { lease_nonces = n ∷ rest })
    else err (database foreign_key_violation)
