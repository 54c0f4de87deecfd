-- ===== src/Commerce/Records.antt =====
-- The rows of customers, deployments and licenses of src/storage/control-store.ts and their tables
-- in src/storage/migrations.ts (001 and 007).
use otto_control.Prelude.{
  ℕ, String, ◌===◌, Bool, Option, List, Map, get, is_some, not, ◌&&◌, ◌||◌, ltb, leb, any, set,
  if◌then◌else◌,
}
use otto_control.Errors.{
  Result, ok, err, database, check_violation, foreign_key_violation, unique_violation,
}
use otto_control.Licenses.Seats.{Enforcement, SeatUsage}
use otto_control.Audit.Canonical.{Json}
use otto_control.Audit.Chain.{AuditStore}

pub data RecordStatus : Type 0 where
  active suspended : RecordStatus

pub record Customer : Type 0 where
  pub id : String
  pub name : String
  pub status : RecordStatus
  pub created_at : ℕ
  pub updated_at : ℕ

pub record Deployment : Type 0 where
  pub id : String
  pub customer_id : String
  pub organization_id : String
  pub machine_fingerprint : String
  pub name : String
  pub status : RecordStatus
  pub created_at : ℕ
  pub updated_at : ℕ

pub record License : Type 0 where
  pub id : String
  pub revision : ℕ
  pub deployment_id : String
  pub customer_name : String
  pub organization_id : String
  pub machine_fingerprint : String
  pub plan : String
  pub issued_at_ms : ℕ
  pub expires_at_ms : ℕ
  pub seat_limit : ℕ
  pub grace_period_ms : ℕ
  pub seat_enforcement : Enforcement
  pub billing_enforced : Bool
  pub modules : List String
  pub offline : Bool
  pub telemetry_allowed : Bool
  pub lease_endpoint : Option String
  pub token_version : ℕ
  pub signature : String
  pub signing_key_id : String
  pub revoked_at_ms : Option ℕ
  pub created_at : ℕ
  pub updated_at : ℕ

pub data ChangeType : Type 0 where
  renewed expanded downgraded terms_changed machine_transferred deployment_rebound : ChangeType

pub record LifecycleEvent : Type 0 where
  pub license_id : String
  pub revision : ℕ
  pub change_type : ChangeType
  pub actor_id : String
  pub detail : Json
  pub created_at : ℕ

-- A row of one of the tables of nonces, whose key is the deployment with the nonce.
pub record Nonce : Type 0 where
  pub deployment_id : String
  pub nonce : String
  pub expires_at_ms : ℕ

-- The tables that licenses touch.
pub record Store : Type 0 where
  pub customers : Map Customer
  pub deployments : Map Deployment
  pub licenses : Map License
  pub lifecycle : List LifecycleEvent
  pub seat_usage : Map SeatUsage
  pub lease_nonces : List Nonce
  pub audit : AuditStore

abbrev pub thirty_days : ℕ
thirty_days = 2592000000

-- The checks of control_licenses, less the ranges of its columns.
unfoldable pub passes_checks : License → Bool
passes_checks l =
    ltb 0 l.revision
    && ltb 0 l.seat_limit
    && ltb l.issued_at_ms l.expires_at_ms
    && leb l.grace_period_ms thirty_days
    && (if l.offline then not (is_some l.lease_endpoint) else is_some l.lease_endpoint)
    && (not l.offline || not l.billing_enforced)

-- A write of a license row, under the checks and the reference to its deployment.
unfoldable pub write_license : License → Store → Result Store
write_license l s =
    if not (passes_checks l)
    then err (database check_violation)
    else if is_some (get l.deployment_id s.deployments)
    then ok (record s { licenses = set l.id l s.licenses })
    else err (database foreign_key_violation)

unfoldable pub same_machine : Deployment → String × Deployment → Bool
same_machine d e =
    not (e.0 === d.id)
    && e.1.organization_id === d.organization_id
    && e.1.machine_fingerprint === d.machine_fingerprint

-- A write of a deployment row, under the unique pair of organization and machine.
unfoldable pub write_deployment : Deployment → Store → Result Store
write_deployment d s =
    if any (same_machine d) s.deployments
    then err (database unique_violation)
    else ok (record s { deployments = set d.id d s.deployments })
