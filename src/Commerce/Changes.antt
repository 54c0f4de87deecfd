-- ===== src/Commerce/Changes.antt =====
-- The changes of a license in src/modules/commercial-control/service.ts: renewLicense,
-- transferLicenseMachine, rebindLicenseDeployment and revokeLicense, with #changeLicense, which they
-- share. The signature is a parameter: it is that of the payload of the license.
use otto_control.Prelude.{
  ℕ, suc, ◌+◌, ◌-◌, ◌*◌, String, ◌===◌, Bool, true, false, Option, none, some, ltb, leb, get,
  is_some, not, ◌&&◌, if◌then◌else◌, one_if, ℤ, pos, negsuc,
}
use otto_control.Errors.{Result, ok, err, conflict, not_found, invalid_request, ensure, ◌>>=◌, ◌>>◌}
use otto_control.Requests.{
  Texts, deployment_id, machine_fingerprint, object_value, field, required_string, is_undefined,
  present,
}
use otto_control.Audit.Canonical.{Json, text, integer, object, no_entry, entry, Runtime, Entries}
use otto_control.Audit.Chain.{EventInput, append_chained}
use otto_control.Commerce.Records.{
  RecordStatus, active, suspended, Deployment, License, ChangeType, renewed, expanded, downgraded,
  terms_changed, machine_transferred, deployment_rebound, Store,
}
use otto_control.Commerce.Store.{
  get_deployment, LicenseUpdate, Binding, update_license, revoke_license,
}

-- What the service is built with.
pub record Service : Type 0 where
  pub runtime : Runtime
  pub texts : Texts
  pub sign : License → Result (String × String)

unfoldable pub record_event : Service → EventInput → ℕ → Store → Store
record_event sv i at s = record s { audit = append_chained sv.runtime i at s.audit }

abbrev pub change_action : ChangeType → String
change_action renewed = "license.renewed"
change_action expanded = "license.expanded"
change_action downgraded = "license.downgraded"
change_action terms_changed = "license.terms_changed"
change_action machine_transferred = "license.machine_transferred"
change_action deployment_rebound = "license.deployment_rebound"

-- The options of #changeLicense, and the change itself.
pub record Change : Type 0 where
  pub license : License
  pub change_type : ChangeType
  pub detail : Entries
  pub rotate_tokens : Bool
  pub binding : Option Binding
  pub reset_seat_usage : Bool

-- `c.license` is `{ ...existing, ...changes }`.
unfoldable pub candidate : License → Change → ℕ → License
candidate existing c now = record c.license {
  revision = suc existing.revision;
  token_version = existing.token_version + one_if c.rotate_tokens;
  signature = "";
  signing_key_id = "";
  updated_at = now;
}

unfoldable pub update_of : License → Change → String → ℕ → String × String → LicenseUpdate
update_of existing c actor_id now signed = record {
  license = record (candidate existing c now) { signature = signed.0; signing_key_id = signed.1 };
  expected_revision = existing.revision;
  actor_id = actor_id;
  change_type = c.change_type;
  change_detail = object c.detail;
  binding = c.binding;
  reset_seat_usage = c.reset_seat_usage;
}

-- What #changeLicense does with the answer of updateLicense.
unfoldable pub finish_change :
    Service → Change → String → ℕ → Option License × Store → Result (License × Store)
finish_change sv c actor_id now (none, s1) =
    err (conflict "License changed concurrently; reload and retry")
finish_change sv c actor_id now (some stored, s1) =
    let event : EventInput = record {
      actor_id = actor_id;
      action = change_action c.change_type;
      target_type = "license";
      target_id = stored.id;
      detail = object (entry "revision" (integer (pos stored.revision)) c.detail);
    } in
    ok (stored, record_event sv event now s1)

unfoldable pub store_change :
    Service → License → Change → String → ℕ → Store → String × String → Result (License × Store)
store_change sv existing c actor_id now s signed =
    update_license (update_of existing c actor_id now signed) now s
    >>= finish_change sv c actor_id now

unfoldable pub change_license :
    Service → License → Change → String → ℕ → Store → Result (License × Store)
change_license sv existing c actor_id now s =
    if is_some existing.revoked_at_ms
    then err (conflict "revoked License cannot be changed")
    else (sv.sign (candidate existing c now) >>= store_change sv existing c actor_id now s)

abbrev pub day_ms : ℕ
day_ms = 24 * 60 * 60 * 1000

abbrev pub max_license_duration_ms : ℕ
max_license_duration_ms = 5 * 366 * day_ms

abbrev pub is_whole : ℕ → ℕ → ℤ → Bool
is_whole low high (pos n) = leb low n && leb n high
is_whole low high (negsuc n) = false

abbrev pub whole : ℤ → ℕ
whole (pos n) = n
whole (negsuc n) = 0

-- An integer of the body between two bounds.
unfoldable pub bounded : Texts → ℕ → ℕ → Json → Result ℕ
bounded ts low high v = elim (ts.number v) [
  | none ↦ err (invalid_request "not an integer")
  | some z ↦ if is_whole low high z then ok (whole z) else err (invalid_request "out of bounds")
]

-- `body.gracePeriodDays`, or the current grace period where the body has none.
unfoldable pub grace_period : Texts → Json → License → Result ℕ
grace_period ts v l =
    if is_undefined v
    then ok l.grace_period_ms
    else (bounded ts 0 30 v >>= λ days. ok (days * day_ms))

unfoldable pub renewal : License → ℕ → ℕ → Change
renewal l expires_at grace = record {
  license = record l { expires_at_ms = expires_at; grace_period_ms = grace };
  change_type = renewed;
  detail = entry "previousExpiresAtMs" (integer (pos l.expires_at_ms)) (
      entry "expiresAtMs" (integer (pos expires_at)) (
        entry "previousGracePeriodMs" (integer (pos l.grace_period_ms))
          (entry "gracePeriodMs" (integer (pos grace)) no_entry)));
  rotate_tokens = false;
  binding = none;
  reset_seat_usage = false;
}

-- `expiresAtMs - now`, where a renewal in the past is below any limit.
unfoldable pub renew_license :
    Service → String → Json → String → ℕ → Store → Result (License × Store)
renew_license sv id raw actor_id now s = do
  body ← object_value raw
  expires_at ← required_string sv.texts body "expiresAt" 64
  l ← present (get id s.licenses) (not_found "license not found")
  t ← present (sv.texts.parse_date expires_at) (invalid_request "not a date")
  ensure (ltb l.expires_at_ms t) (invalid_request "renewal must be later than the current expiry")
      >> ensure (leb (t - now) max_license_duration_ms)
          (invalid_request "more than five years from now")
      >> (do
        grace ← grace_period sv.texts (field "gracePeriodDays" body) l
        change_license sv l (renewal l t grace) actor_id now s)

unfoldable pub transfer : License → String → Change
transfer l machine = record {
  license = record l { machine_fingerprint = machine };
  change_type = machine_transferred;
  detail =
      entry "previousMachineFingerprint" (text l.machine_fingerprint)
        (entry "machineFingerprint" (text machine) no_entry);
  rotate_tokens = true;
  binding = some (record {
    deployment_id = l.deployment_id;
    expected_fingerprint = l.machine_fingerprint;
    new_fingerprint = machine;
  });
  reset_seat_usage = true;
}

unfoldable pub transfer_license_machine :
    Service → String → Json → String → ℕ → Store → Result (License × Store)
transfer_license_machine sv id raw actor_id now s = do
  body ← object_value raw
  given ← required_string sv.texts body "machineFingerprint" 64
  let machine = sv.texts.to_lower_case given
  ensure (sv.texts.matches machine_fingerprint machine) (invalid_request "not a digest") >> (do
    l ← present (get id s.licenses) (not_found "license not found")
    ensure (not (machine === l.machine_fingerprint))
          (invalid_request "machineFingerprint is unchanged")
        >> change_license sv l (transfer l machine) actor_id now s)

unfoldable pub rebinding : License → Deployment → String → Change
rebinding l d customer_name = record {
  license = record l {
    deployment_id = d.id;
    customer_name = customer_name;
    organization_id = d.organization_id;
    machine_fingerprint = d.machine_fingerprint;
  };
  change_type = deployment_rebound;
  detail = entry "previousDeploymentId" (text l.deployment_id) (
      entry "deploymentId" (text d.id) (
        entry "previousOrganizationId" (text l.organization_id)
          (entry "organizationId" (text d.organization_id) no_entry)));
  rotate_tokens = true;
  binding = none;
  reset_seat_usage = true;
}

abbrev pub is_active : RecordStatus → Bool
is_active active = true
is_active suspended = false

unfoldable pub rebind_license_deployment :
    Service → String → Json → String → ℕ → Store → Result (License × Store)
rebind_license_deployment sv id raw actor_id now s = do
  body ← object_value raw
  target_id ← required_string sv.texts body "deploymentId" 68
  ensure (sv.texts.matches deployment_id target_id) (invalid_request "deploymentId is invalid")
      >> (do
        l ← present (get id s.licenses) (not_found "license not found")
        ensure (not (target_id === l.deployment_id)) (invalid_request "deploymentId is unchanged")
            >> (do
              (current, _) ←
                  present (get_deployment l.deployment_id s)
                    (conflict "current deployment no longer exists")
              (target, customer_name) ←
                  present (get_deployment target_id s) (not_found "target deployment not found")
              ensure (is_active target.status) (conflict "target deployment is suspended")
                  >> ensure (target.customer_id === current.customer_id)
                      (conflict "License can only be rebound within the same customer")
                  >> change_license sv l (rebinding l target customer_name) actor_id now s))

-- `revokedAtMs` is the service's clock and `at` the database's.
unfoldable pub revoke_and_record :
    Service → String → String → ℕ → ℕ → Store → Result (License × Store)
revoke_and_record sv id actor_id revoked_at at s = do
  let (row, s1) = revoke_license id revoked_at at s
  l ← present row (not_found "license not found")
  let event : EventInput = record {
    actor_id = actor_id;
    action = "license.revoked";
    target_type = "license";
    target_id = id;
    detail = object (
        entry "deploymentId" (text l.deployment_id)
          (entry "revokedAtMs" (integer (pos revoked_at)) no_entry));
  }
  ok (l, record_event sv event at s1)
