-- ===== src/Policy/Store.antt =====
-- The distributions of updates, their assignments to deployments and the nonces of policy requests:
-- createUpdateDistribution to hasDeploymentUpdateAssignment and consumeUpdatePolicyNonce of
-- src/storage/postgres-store.ts.
use otto_control.Prelude.{
  ℕ, String, ◌===◌, Bool, true, false, List, ◌∷◌, Map, has, set, any, ◌&&◌, if◌then◌else◌, map,
}
use otto_control.Errors.{Result, ok, err, conflict, database, foreign_key_violation}
use otto_control.Updates.Releases.{Releases}
use otto_control.Commerce.Records.{RecordStatus, active, Nonce, Store as Commerce}
use otto_control.Commerce.Store.{is_nonce, live_nonces}

pub record Distribution : Type 0 where
  pub id : String
  pub name : String
  pub status : RecordStatus
  pub created_at : ℕ
  pub updated_at : ℕ

pub record Assignment : Type 0 where
  pub deployment_id : String
  pub distribution_id : String
  pub updated_at : ℕ

pub record PolicyStore : Type 0 where
  pub commerce : Commerce
  pub distributions : Map Distribution
  pub assignments : List Assignment
  pub releases : Releases
  pub nonces : List Nonce

unfoldable pub create_update_distribution :
    String → String → ℕ → PolicyStore → Result (Distribution × PolicyStore)
create_update_distribution id name at s =
    let row : Distribution = record {
      id = id;
      name = name;
      status = active;
      created_at = at;
      updated_at = at;
    } in
    if has id s.distributions
    then err (conflict "update distribution already exists")
    else ok (row, record s { distributions = set id row s.distributions })

unfoldable pub is_assigned : String → String → Assignment → Bool
is_assigned deployment_id distribution_id a =
    a.deployment_id === deployment_id && a.distribution_id === distribution_id

unfoldable pub refresh : Assignment → Assignment → Assignment
refresh a b = if is_assigned a.deployment_id a.distribution_id b then a else b

-- `ON CONFLICT … DO UPDATE SET updated_at`.
unfoldable pub assign_deployment_update_distribution :
    Assignment → PolicyStore → Result (Assignment × PolicyStore)
assign_deployment_update_distribution a s =
    let rows =
      if any (is_assigned a.deployment_id a.distribution_id) s.assignments
      then map (refresh a) s.assignments
      else a ∷ s.assignments in
    if has a.deployment_id s.commerce.deployments && has a.distribution_id s.distributions
    then ok (a, record s { assignments = rows })
    else err (conflict "deployment or update distribution does not exist")

unfoldable pub has_deployment_update_assignment : String → String → PolicyStore → Bool
has_deployment_update_assignment deployment_id distribution_id s =
    any (is_assigned deployment_id distribution_id) s.assignments

unfoldable pub consume_update_policy_nonce : Nonce → ℕ → PolicyStore → Result (Bool × PolicyStore)
consume_update_policy_nonce n now s =
    let rest = live_nonces now s.nonces in
    if any (is_nonce n.deployment_id n.nonce) rest
    then ok (false, record s { nonces = rest })
    else if has n.deployment_id s.commerce.deployments
    then ok (true, record s { nonces = n ∷ rest })
    else err (database foreign_key_violation)
