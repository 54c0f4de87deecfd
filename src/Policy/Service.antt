-- ===== src/Policy/Service.antt =====
-- The administration of updates in src/modules/update-policy/service.ts: createDistribution to
-- rollbackRelease. The clocks of service and database are one argument.
use otto_control.Prelude.{ℕ, String, Bool, true, false, Option, none, some, get, ◌||◌}
use otto_control.Errors.{Result, ok, err, conflict, not_found, invalid_request, ensure, ◌>>=◌, ◌>>◌}
use otto_control.Requests.{
  Texts, deployment_id, distribution_id, object_value, required_string, present,
}
use otto_control.Audit.Canonical.{Json, Entries, null, text, object, no_entry, entry, Runtime}
use otto_control.Audit.Chain.{EventInput, append_chained}
use otto_control.Updates.Releases.{
  Release, ReleaseState, ReleaseTransition, active, paused, rolled_back, activate_update_release,
  pause_update_release, rollback_update_release,
}
use otto_control.Commerce.Changes.{is_active}
use otto_control.Commerce.Store.{get_deployment}
use otto_control.Policy.Versions.{Grammar}
use otto_control.Policy.Store.{
  Distribution, Assignment, PolicyStore, create_update_distribution,
  assign_deployment_update_distribution,
}

-- `new URL(value)`, where it is an HTTPS address without credentials, as text.
pub record UpdateService : Type 0 where
  pub runtime : Runtime
  pub texts : Texts
  pub grammar : Grammar
  pub https_url : String → Option String
  pub is_sha256 : String → Bool
  pub assert_release_ready : Release → Result (Unit {0})

unfoldable pub record_update_event :
    UpdateService → String → String → String → String → Entries → ℕ → PolicyStore → PolicyStore
record_update_event sv actor_id action target_type target_id detail now s =
    let event : EventInput = record {
      actor_id = actor_id;
      action = action;
      target_type = target_type;
      target_id = target_id;
      detail = object detail;
    } in
    let audit = append_chained sv.runtime event now s.commerce.audit in
    record s { commerce = record s.commerce { audit = audit } }

unfoldable pub create_distribution :
    UpdateService → Json → String → ℕ → PolicyStore → Result (Distribution × PolicyStore)
create_distribution sv raw actor_id now s = do
  body ← object_value raw
  given ← required_string sv.texts body "id" 64
  name ← required_string sv.texts body "name" 160
  let id = sv.texts.to_lower_case given
  ensure (sv.texts.matches distribution_id id) (invalid_request "distribution id is invalid") >> (do
    (row, s1) ← create_update_distribution id name now s
    let detail = entry "name" (text name) no_entry
    ok (
      row,
      record_update_event sv actor_id "update_distribution.created" "update_distribution" id detail
          now s1,
    ))

-- A distribution that is there and active.
unfoldable pub active_distribution : String → PolicyStore → Result Distribution
active_distribution id s =
    present (get id s.distributions) (not_found "update distribution not found") >>= λ d.
    ensure (is_active d.status) (conflict "update distribution is suspended") >> ok d

unfoldable pub assign_deployment :
    UpdateService → String → Json → String → ℕ → PolicyStore → Result (Assignment × PolicyStore)
assign_deployment sv deployment raw actor_id now s =
    ensure (sv.texts.matches deployment_id deployment) (invalid_request "deploymentId is invalid")
    >> (do
      body ← object_value raw
      given ← required_string sv.texts body "distributionId" 64
      let id = sv.texts.to_lower_case given
      ensure (sv.texts.matches distribution_id id) (invalid_request "distributionId is invalid")
          >> (do
            _ ← present (get_deployment deployment s.commerce) (not_found "deployment not found")
            _ ← active_distribution id s
            let row : Assignment = record {
              deployment_id = deployment;
              distribution_id = id;
              updated_at = now;
            }
            (assignment, s1) ← assign_deployment_update_distribution row s
            let detail = entry "distributionId" (text id) no_entry
            ok (
              assignment,
              record_update_event sv actor_id "deployment.update_distribution_assigned" "deployment"
                  deployment detail now s1,
            )))

abbrev pub nullable_id : Option Release → Json
nullable_id none = null
nullable_id (some x) = text x.id

abbrev pub can_publish : ReleaseState → Result (Unit {0})
can_publish active = err (conflict "update release is already active")
can_publish rolled_back = err (conflict "rolled-back release cannot be reactivated")
can_publish _ = ok tt

unfoldable pub activate_release :
    UpdateService → String → String → ℕ → PolicyStore → Result (ReleaseTransition × PolicyStore)
activate_release sv id actor_id now s = do
  current ← present (get id s.releases) (not_found "update release not found")
  can_publish current.state >> sv.assert_release_ready current >> (do
    (answer, rs) ← activate_update_release s.releases id now
    t ← present answer (not_found "update release not found")
    let s1 : PolicyStore = record s { releases = rs }
    let detail = entry "previousReleaseId" (nullable_id t.fallback) no_entry
    ok (
      t,
      record_update_event sv actor_id "update_release.activated" "update_release" id detail now s1,
    ))

abbrev pub is_state_active : ReleaseState → Bool
is_state_active active = true
is_state_active _ = false

abbrev pub is_state_paused : ReleaseState → Bool
is_state_paused paused = true
is_state_paused _ = false

unfoldable pub pause_release :
    UpdateService → String → String → ℕ → PolicyStore → Result (Release × PolicyStore)
pause_release sv id actor_id now s = do
  current ← present (get id s.releases) (not_found "update release not found")
  ensure (is_state_active current.state) (conflict "only an active update release can be paused")
      >> (do
        let (answer, rs) = pause_update_release s.releases id now
        x ← present answer (conflict "update release is no longer active")
        let s1 : PolicyStore = record s { releases = rs }
        ok (
          x,
          record_update_event sv actor_id "update_release.paused" "update_release" id no_entry now
              s1,
        ))

-- The release to fall back to has to be ready, where there is one.
unfoldable pub check_fallback : UpdateService → Option String → PolicyStore → Result (Unit {0})
check_fallback sv none s = ok tt
check_fallback sv (some p) s = elim (get p s.releases) [
  | none ↦ ok tt
  | some x ↦ sv.assert_release_ready x
]

unfoldable pub rollback_release :
    UpdateService → String → String → ℕ → PolicyStore → Result (ReleaseTransition × PolicyStore)
rollback_release sv id actor_id now s = do
  current ← present (get id s.releases) (not_found "update release not found")
  ensure (is_state_active current.state || is_state_paused current.state)
        (conflict "only an active or paused update release can be rolled back")
      >> check_fallback sv current.previous_release_id s
      >> (do
        (answer, rs) ← rollback_update_release s.releases id now
        t ← present answer (not_found "update release not found")
        let s1 : PolicyStore = record s { releases = rs }
        let detail = entry "restoredReleaseId" (nullable_id t.fallback) no_entry
        ok (
          t,
          record_update_event sv actor_id "update_release.rolled_back" "update_release" id detail
              now s1,
        ))
