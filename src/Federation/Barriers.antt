-- ===== src/Federation/Barriers.antt =====
-- What a revoked key, a block and a suspended deployment cut off.
use otto_control.Prelude.{
  ℕ, String, Bool, true, false, ◌&&◌, none, some, [], ◌∷◌, Map, get, set, has, update, values, All,
  get-set, Option-cases, Bool-cases, inl, inr, ◌≡◌, refl, arith, is_some,
}
use otto_control.Errors.{err, conflict}
use otto_control.Federation.Records.{
  Message, Store, Block, DeploymentStatus, DeploymentKey, KeyStatus,
}
use otto_control.Federation.Directory.{
  set_deployment_status, is_active, is_party, revoke_key, is_live, is_signed_by, pair_key,
  expire_if, is_queued, set_block, is_blocked, is_between, register_key, KeyInput, get_active_key,
  get_verification_key,
}

-- No message that waits or is claimed passes the test.
abbrev pub NoneQueued : (Message → Bool) → Store → Type 0
NoneQueued test s = All (λ m. (is_queued m && test m) ≡ false) (values s.messages)

pub expired_none :
    (test : Message → Bool) (ms : Map Message)
    → All (λ m. (is_queued m && test m) ≡ false) (values (update (expire_if test) ms))
expired_none test [] = tt
expired_none test (e ∷ ms) = elim (Bool-cases (is_queued e.1 && test e.1)) [
  | inl h ↦ rw h (refl, expired_none test ms)
  | inr h ↦ rw h (h, expired_none test ms)
]

register_key_refused :
    (s : Store) (i : KeyInput) (old : DeploymentKey)
    → get (pair_key i.deployment_id i.key_id) s.keys ≡ some old
    → is_live old ≡ false
    → register_key s i ≡ err (conflict "a revoked federation key id cannot be reused")
unfolding register_key
register_key_refused s i old there gone = rw (there, register_key, gone) refl

-- Once a key is revoked its id cannot be registered again, it is no active and no verification key
-- at any time, and no message that it signed waits or is claimed.
pub revoke_key_cuts :
    (s : Store) (d k : String) (now t : ℕ) (i : KeyInput)
    → (revoke_key s d k now).0 ≡ true
    → i.deployment_id ≡ d
    → i.key_id ≡ k
    → (register_key (revoke_key s d k now).1 i
        ≡ err (conflict "a revoked federation key id cannot be reused"))
      × (get_active_key (revoke_key s d k now).1 d k t ≡ none)
      × (get_verification_key (revoke_key s d k now).1 d k ≡ none)
      × NoneQueued (is_signed_by d k) (revoke_key s d k now).1
unfolding revoke_key register_key get_active_key get_verification_key
revoke_key_cuts s d k now t i done same_d same_k = elim (Option-cases (get (pair_key d k) s.keys)) [
  | inl n ↦ absurd (ground (arith, rw (n, revoke_key) at done))
  | inr (old, n) ↦ elim (Bool-cases (is_live old)) [
    | inr h ↦ absurd (ground (arith, rw (n, revoke_key, h) at done))
    | inl h ↦
        let row : DeploymentKey = record old {
          status = KeyStatus.revoked;
          revoked_at = some now;
        } in
        let found = get-set (pair_key d k) row s.keys in
        rw (n, revoke_key, h)
          (
            register_key_refused _ i row (rw (same_d, same_k) found) refl,
            rw (get_active_key, found) refl,
            rw (get_verification_key, found) refl,
            expired_none (is_signed_by d k) s.messages,
          )
  ]
]

-- After a block neither side reaches the other, and no message between them waits or is claimed.
pub set_block_cuts :
    (s : Store) (i : Block)
    → (is_blocked (set_block s i) i.blocker_deployment_id i.blocked_deployment_id ≡ true)
      × (is_blocked (set_block s i) i.blocked_deployment_id i.blocker_deployment_id ≡ true)
      × NoneQueued (is_between i.blocker_deployment_id i.blocked_deployment_id) (set_block s i)
unfolding set_block is_blocked
set_block_cuts s i =
    let a = i.blocker_deployment_id in
    let b = i.blocked_deployment_id in
    let found : has (pair_key a b) (set (pair_key a b) i s.blocks) ≡ true =
      rw (get-set (pair_key a b) i s.blocks) refl in
    (
      rw found refl,
      rw found (ground (arith, Bool-cases (has (pair_key b a) (set (pair_key a b) i s.blocks)))),
      expired_none (is_between a b) s.messages,
    )

-- When a deployment that is known is blocked or disabled, no message from or to it waits or is
-- claimed.
pub set_deployment_status_cuts :
    (s : Store) (d : String) (status : DeploymentStatus) (now : ℕ)
    → is_some (get d s.deployments) ≡ true
    → is_active status ≡ false
    → NoneQueued (is_party d) (set_deployment_status s d status now).1
unfolding set_deployment_status
set_deployment_status_cuts s d status now known off = elim (Option-cases (get d s.deployments)) [
  | inl n ↦ absurd (ground (arith, rw n at known))
  | inr (old, n) ↦ rw (n, set_deployment_status, off) (expired_none (is_party d) s.messages)
]
