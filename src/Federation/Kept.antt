-- ===== src/Federation/Kept.antt =====
-- Each operation of the relay's store keeps the store consistent.
use otto_control.Prelude.{
  ℕ, String, ◌===◌, Bool, not, some, get, set, update, All-set, All-get, count-update, Option-cases,
  Bool-cases, inl, inr, ◌≡◌, refl, arith, has, ◌||◌, is_some,
}
use mathlib.Core.Path.{subst}
use otto_control.Errors.{ok, ok_inj}
use otto_control.Federation.Records.{Message, Grant, Store, DeploymentStatus}
use otto_control.Federation.Directory.{
  set_deployment_status, is_active, is_party, revoke_key, is_live, is_signed_by, pair_key,
  expire_if,
}
use otto_control.Federation.Grants.{GrantInput, create_grant, revoke_grant, new_grant}
use otto_control.Federation.Lifecycle.{IsConsistent, KeepsGrant, expired_keep}

-- Messages that a test selects are expired, and the grants stay.
pub expired-IsConsistent :
    (s s' : Store) (test : Message → Bool)
    → IsConsistent s
    → s'.messages ≡ update (expire_if test) s.messages
    → s'.grants ≡ s.grants
    → IsConsistent s'
expired-IsConsistent s s' test c m g = record {
  each = rw m (expired_keep test s.messages c.each);
  unique = λ k. rw (m, count-update (expire_if test) k s.messages) (c.unique k);
  granted = rw g c.granted;
}

-- The messages and the grants stay.
pub same-IsConsistent :
    (s s' : Store)
    → IsConsistent s
    → s'.messages ≡ s.messages
    → s'.grants ≡ s.grants
    → IsConsistent s'
same-IsConsistent s s' c m g = record {
  each = rw m c.each;
  unique = λ k. rw m (c.unique k);
  granted = rw g c.granted;
}

pub set_deployment_status-IsConsistent :
    (s : Store) (d : String) (status : DeploymentStatus) (now : ℕ)
    → IsConsistent s
    → IsConsistent (set_deployment_status s d status now).1
unfolding set_deployment_status
set_deployment_status-IsConsistent s d status now c = elim (Option-cases (get d s.deployments)) [
  | inl e ↦ rw (e, set_deployment_status) c
  | inr (old, e) ↦
      rw (e, set_deployment_status)
        (elim (Bool-cases (is_active status)) [
          | inl h ↦ same-IsConsistent s _ c (rw h refl) refl
          | inr h ↦ expired-IsConsistent s _ (is_party d) c (rw h refl) refl
        ])
]

pub revoke_key-IsConsistent :
    (s : Store) (d k : String) (now : ℕ) → IsConsistent s → IsConsistent (revoke_key s d k now).1
unfolding revoke_key
revoke_key-IsConsistent s d k now c = elim (Option-cases (get (pair_key d k) s.keys)) [
  | inl e ↦ rw (e, revoke_key) c
  | inr (old, e) ↦
      rw (e, revoke_key)
        (elim (Bool-cases (is_live old)) [
          | inl h ↦ rw h (expired-IsConsistent s _ (is_signed_by d k) c refl refl)
          | inr h ↦ rw h c
        ])
]

-- A grant that satisfies the rule is put among the grants.
granted-IsConsistent :
    (s s' : Store) (k : String) (g : Grant)
    → IsConsistent s
    → KeepsGrant (k, g)
    → s'.messages ≡ s.messages
    → s'.grants ≡ set k g s.grants
    → IsConsistent s'
granted-IsConsistent s s' k g c h m e = record {
  each = rw m c.each;
  unique = λ k. rw m (c.unique k);
  granted = rw e (All-set KeepsGrant k g s.grants h c.granted);
}

pub create_grant-IsConsistent :
    (s : Store) (i : GrantInput) (g : Grant) (s' : Store)
    → IsConsistent s
    → create_grant s i ≡ ok (g, s')
    → IsConsistent s'
unfolding create_grant
create_grant-IsConsistent s i g s' c e = elim (Bool-cases (has i.id s.grants)) [
  | inl h ↦ absurd (ground (arith, rw h at e))
  | inr h ↦
      let same = ok_inj (rw h at e) in
      subst (λ (y : Grant × Store). IsConsistent y.1) same
        (granted-IsConsistent s _ i.id (new_grant i) c (refl, omega arith) refl refl)
]

pub revoke_grant-IsConsistent :
    (s : Store) (owner id : String) (now : ℕ)
    → IsConsistent s
    → IsConsistent (revoke_grant s owner id now).1
unfolding revoke_grant
revoke_grant-IsConsistent s owner id now c = elim (Option-cases (get id s.grants)) [
  | inl e ↦ rw (e, revoke_grant) c
  | inr (g, e) ↦
      let kept : KeepsGrant (id, g) = All-get KeepsGrant id s.grants c.granted e in
      rw (e, revoke_grant)
        (elim (Bool-cases (not (g.owner_deployment_id === owner) || is_some g.revoked_at)) [
          | inl h ↦ rw h c
          | inr h ↦
              rw h
                (granted-IsConsistent s _ id (record g { revoked_at = some now }) c kept refl refl)
        ])
]
