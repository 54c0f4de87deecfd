-- ===== src/Commerce/LeaseChecks.antt =====
-- The checks of `issueLease` of src/modules/commercial-control/service.ts, which precede its first
-- write.
use otto_control.Prelude.{
  ℕ, ◌+◌, ◌*◌, String, ◌===◌, ◌==◌, Bool, false, Option, List, ltb, get, is_some, not, pos,
}
use otto_control.Errors.{Result, ok, not_found, invalid_request, unauthorized, ensure, ◌>>=◌, ◌>>◌}
use otto_control.Requests.{Texts, nonce_or_dotted, object_value, field, present}
use otto_control.Licenses.Seats.{SeatStatus}
use otto_control.Audit.Canonical.{Json, text, integer, Entries}
use otto_control.Commerce.Records.{License, Nonce, Store}
use otto_control.Commerce.Changes.{Service}

pub data GraceReason : Type 0 where
  expiration seat_overage : GraceReason

pub record Lease : Type 0 where
  pub id : String
  pub license_id : String
  pub deployment_id : String
  pub machine_fingerprint : String
  pub license_revision : ℕ
  pub issued_at_ms : ℕ
  pub expires_at_ms : ℕ
  pub seat_limit : ℕ
  pub active_seat_count : Option ℕ
  pub seat_status : SeatStatus
  pub grace_reasons : List GraceReason
  pub grace_expires_at_ms : Option ℕ

-- The token of a license for leases, the check of its signing key, the signature of a lease, and
-- the duration of leases.
pub record LeaseService : Type 0 where
  pub base : Service
  pub lease_token : License → String
  pub assert_key_usable : String → Result (Unit {0})
  pub sign_lease : Lease → Result (String × String)
  pub lease_duration_ms : ℕ

-- `v !== t`, for a text and for the version.
unfoldable pub is_text : String → Json → Bool
is_text t (text u) = u === t
is_text t _ = false

unfoldable pub is_version_1 : Json → Bool
is_version_1 (integer (pos n)) = n == 1
is_version_1 _ = false

abbrev pub text_or_empty : Json → String
text_or_empty (text t) = t
text_or_empty _ = ""

-- A text that passes the pattern of nonces.
unfoldable pub is_nonce_text : Texts → Json → Bool
is_nonce_text ts (text t) = ts.matches nonce_or_dotted t
is_nonce_text ts _ = false

unfoldable pub check_binding : License → Entries → Result (Unit {0})
check_binding l body =
    ensure (is_version_1 (field "version" body))
      (invalid_request "lease request version is invalid")
    >> ensure (is_text l.id (field "licenseId" body)) (invalid_request "licenseId mismatch")
    >> ensure (is_text l.deployment_id (field "deploymentId" body))
        (invalid_request "deploymentId mismatch")
    >> ensure (is_text l.organization_id (field "organizationId" body))
        (invalid_request "organizationId mismatch")
    >> ensure (is_text l.machine_fingerprint (field "machineFingerprint" body))
        (invalid_request "machineFingerprint mismatch")

-- The checks on the license itself, at the instant of the request.
unfoldable pub check_license : LeaseService → License → ℕ → Result (Unit {0})
check_license sv l now =
    ensure (not (is_some l.revoked_at_ms)) (unauthorized "License has been revoked")
    >> (ensure (ltb now (l.expires_at_ms + l.grace_period_ms))
          (unauthorized "License and its grace period have expired")
        >> sv.assert_key_usable l.signing_key_id)

unfoldable pub check_body : LeaseService → License → ℕ → Entries → Result (License × Entries)
check_body sv l now body = check_binding l body >>= λ bound.
    ensure (is_nonce_text sv.base.texts (field "nonce" body)) (invalid_request "nonce is invalid")
    >> (check_license sv l now >>= λ usable. ok (l, body))

unfoldable pub check_bearer :
    LeaseService → Json → String → ℕ → License → Result (License × Entries)
check_bearer sv raw bearer now l =
    ensure (not l.offline) (invalid_request "offline License does not use online leases")
    >> (ensure (bearer === sv.lease_token l) (unauthorized "License lease token is invalid")
        >> (object_value raw >>= check_body sv l now))

-- What precedes the first write: the license, and the body with its nonce.
unfoldable pub check_lease :
    LeaseService → String → Json → String → ℕ → Store → Result (License × Entries)
check_lease sv license_id raw bearer now s =
    present (get license_id s.licenses) (not_found "license not found")
    >>= check_bearer sv raw bearer now

abbrev pub nonce_lifetime_ms : ℕ
nonce_lifetime_ms = 20 * 60 * 1000

unfoldable pub nonce_of : License → Entries → ℕ → Nonce
nonce_of l body now = record {
  deployment_id = l.deployment_id;
  nonce = text_or_empty (field "nonce" body);
  expires_at_ms = now + nonce_lifetime_ms;
}
