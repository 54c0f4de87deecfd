-- ===== src/Policy/Request.antt =====
-- The checks of `resolve` of src/modules/update-policy/service.ts, which precede its first write.
-- Tokens, signatures, digests and the check of a release's artifacts are parameters; each service
-- has patterns of its own.
use otto_control.Prelude.{
  ℕ, suc, ◌+◌, ◌-◌, ◌*◌, String, ◌===◌, Bool, false, Option, none, some, List, get, ltb, leb,
  is_some, not, ◌&&◌, if◌then◌else◌, ℤ, pos, negsuc,
}
use otto_control.Errors.{Result, ok, not_found, invalid_request, unauthorized, ensure, ◌>>=◌, ◌>>◌}
use otto_control.Requests.{
  Texts, deployment_id, machine_fingerprint, distribution_id, nonce, object_value, field,
  required_string, present,
}
use otto_control.Audit.Canonical.{Json, Entries}
use otto_control.Updates.Releases.{Release}
use otto_control.Commerce.Records.{License, Deployment}
use otto_control.Commerce.Changes.{is_active}
use otto_control.Commerce.Store.{get_deployment}
use otto_control.Commerce.LeaseChecks.{is_version_1}
use otto_control.Policy.Versions.{Grammar, parse_semver}
use otto_control.Policy.Store.{Distribution, PolicyStore, has_deployment_update_assignment}

pub data Reason : Type 0 where
  update_available up_to_date outside_rollout no_active_release : Reason

pub record Payload : Type 0 where
  pub deployment_id : String
  pub distribution_id : String
  pub current_version : String
  pub reason : Reason
  pub release : Option Release
  pub artifacts : List Json
  pub issued_at_ms : ℕ
  pub expires_at_ms : ℕ

-- The headers of a request; `timestamp` is `Number` of its header where that is an integer.
pub record Authentication : Type 0 where
  pub bearer : String
  pub timestamp : Option ℤ
  pub nonce : String
  pub signature : String

pub record PolicyService : Type 0 where
  pub texts : Texts
  pub grammar : Grammar
  pub lease_token : License → String
  pub sign_request : String → ℤ → String → Json → String
  pub digest_word : String → String → String → ℕ
  pub assert_release_ready : Release → Result (Unit {0})
  pub active_envelopes : String → Result (List Json)
  pub sign_policy : Payload → Result (String × String)
  pub policy_duration_ms : ℕ

pub record PolicyRequest : Type 0 where
  pub license_id : String
  pub deployment_id : String
  pub machine_fingerprint : String
  pub distribution_id : String
  pub current_version : String

unfoldable pub read_request : PolicyService → Entries → Result PolicyRequest
read_request sv body = do
  license ← required_string sv.texts body "licenseId" 68
  deployment ← required_string sv.texts body "deploymentId" 68
  machine ← required_string sv.texts body "machineFingerprint" 64
  distribution ← required_string sv.texts body "distributionId" 64
  version ← required_string sv.texts body "currentVersion" 80
  ok (record {
    license_id = license;
    deployment_id = deployment;
    machine_fingerprint = sv.texts.to_lower_case machine;
    distribution_id = sv.texts.to_lower_case distribution;
    current_version = sv.grammar.strip_v version;
  })

unfoldable pub check_request : PolicyService → PolicyRequest → Result (Unit {0})
check_request sv r =
    ensure (sv.texts.matches deployment_id r.deployment_id)
      (invalid_request "deploymentId is invalid")
    >> (ensure (sv.texts.matches machine_fingerprint r.machine_fingerprint)
          (invalid_request "machineFingerprint is invalid")
        >> (ensure (sv.texts.matches distribution_id r.distribution_id)
              (invalid_request "distributionId is invalid")
            >> ensure (is_some (parse_semver sv.grammar sv.texts.trim r.current_version))
                (invalid_request "currentVersion is invalid")))

unfoldable pub policy_request : PolicyService → Json → Result PolicyRequest
policy_request sv raw = object_value raw >>= λ body.
    ensure (is_version_1 (field "version" body))
      (invalid_request "update policy request version is invalid")
    >> (read_request sv body >>= λ r. check_request sv r >> ok r)

unfoldable pub check_policy_license : License → PolicyRequest → ℕ → Result (Unit {0})
check_policy_license l r now =
    ensure (not l.offline) (unauthorized "offline License cannot resolve online update policy")
    >> (ensure
          (l.deployment_id === r.deployment_id && l.machine_fingerprint === r.machine_fingerprint)
          (unauthorized "update policy deployment binding is invalid")
        >> (ensure (not (is_some l.revoked_at_ms)) (unauthorized "License has been revoked")
            >> ensure (ltb now l.expires_at_ms) (unauthorized "License has expired")))

abbrev pub is_active_deployment : Option (Deployment × String) → Bool
is_active_deployment none = false
is_active_deployment (some d) = is_active d.0.status

abbrev pub is_active_distribution : Option Distribution → Bool
is_active_distribution none = false
is_active_distribution (some d) = is_active d.status

unfoldable pub check_assignment : PolicyRequest → PolicyStore → Result (Unit {0})
check_assignment r s =
    ensure (is_active_deployment (get_deployment r.deployment_id s.commerce))
      (unauthorized "deployment is not active")
    >> (ensure (has_deployment_update_assignment r.deployment_id r.distribution_id s)
          (unauthorized "deployment is not assigned to this update distribution")
        >> ensure (is_active_distribution (get r.distribution_id s.distributions))
            (unauthorized "update distribution is not active"))

abbrev pub max_clock_skew_ms : ℕ
max_clock_skew_ms = 5 * 60 * 1000

-- `Math.abs(now - timestamp)`.
unfoldable pub distance : ℕ → ℤ → ℕ
distance now (pos t) = if ltb now t then t - now else now - t
distance now (negsuc t) = now + suc t

unfoldable pub is_recent : ℕ → Option ℤ → Bool
is_recent now none = false
is_recent now (some t) = leb (distance now t) max_clock_skew_ms

abbrev pub instant : Option ℤ → ℤ
instant none = pos 0
instant (some t) = t

unfoldable pub check_signature :
    PolicyService → License → Json → Authentication → ℕ → Result (Unit {0})
check_signature sv l raw a now =
    let token = sv.lease_token l in
    ensure (a.bearer === token) (unauthorized "update policy token is invalid")
    >> (ensure (is_recent now a.timestamp)
          (unauthorized "update policy request timestamp is invalid")
        >> (ensure (sv.texts.matches nonce a.nonce)
              (invalid_request "update policy nonce is invalid")
            >> ensure (a.signature === sv.sign_request token (instant a.timestamp) a.nonce raw)
                (unauthorized "update policy request signature is invalid")))

-- What precedes the first write.
unfoldable pub check_policy :
    PolicyService → Json → Authentication → ℕ → PolicyStore → Result (PolicyRequest × License)
check_policy sv raw a now s = policy_request sv raw >>= λ r.
    present (get r.license_id s.commerce.licenses) (not_found "license not found") >>= λ l.
    check_policy_license l r now
    >> (check_assignment r s >> (check_signature sv l raw a now >> ok (r, l)))
