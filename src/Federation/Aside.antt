-- ===== src/Federation/Aside.antt =====
-- The operations of the relay's store that touch neither messages nor grants, and the blocks.
use otto_control.Prelude.{
  arith, ℕ, String, get, has, Option-cases, Bool-cases, inl, inr, ◌≡◌, refl, leb, ◌||◌,
}
use mathlib.Core.Path.{subst}
use otto_control.Errors.{ok, ok_inj}
use otto_control.Federation.Records.{Store, Block, DeploymentKey}
use otto_control.Federation.Directory.{
  DeploymentInput, register_deployment, KeyInput, register_key, set_block, remove_block, is_live,
  pair_key, put_key, is_between,
}
use otto_control.Federation.Grants.{
  AttachmentInput, AttachmentResult, create_attachment, mark_attachment_ready, expire_attachments,
  is_attachment_of, is_gone,
}
use otto_control.Federation.Limits.{
  consume_nonce, consume_rate_limit, live_nonces, live_windows, requests_in, window_start,
}
use otto_control.Federation.Lifecycle.{IsConsistent}
use otto_control.Federation.Kept.{same-IsConsistent, expired-IsConsistent}

pub register_deployment-IsConsistent :
    (s : Store) (i : DeploymentInput) → IsConsistent s → IsConsistent (register_deployment s i).1
unfolding register_deployment
register_deployment-IsConsistent s i c = same-IsConsistent s _ c refl refl

pub register_key-IsConsistent :
    (s : Store) (i : KeyInput) (k : DeploymentKey) (s' : Store)
    → IsConsistent s
    → register_key s i ≡ ok (k, s')
    → IsConsistent s'
unfolding register_key
register_key-IsConsistent s i k s' c e =
    elim (Option-cases (get (pair_key i.deployment_id i.key_id) s.keys)) [
      | inl n ↦ done (rw (n, register_key) at e)
      | inr (old, n) ↦ elim (Bool-cases (is_live old)) [
        | inl h ↦ done (rw (n, register_key, h) at e)
        | inr h ↦ absurd (ground (arith, rw (n, register_key, h) at e))
      ]
    ]
  where
    done : put_key s i ≡ ok (k, s') → IsConsistent s'
    done p =
        subst (λ (y : DeploymentKey × Store). IsConsistent y.1) (ok_inj p)
          (same-IsConsistent s _ c refl refl)

pub set_block-IsConsistent : (s : Store) (i : Block) → IsConsistent s → IsConsistent (set_block s i)
unfolding set_block
set_block-IsConsistent s i c =
    expired-IsConsistent s _ (is_between i.blocker_deployment_id i.blocked_deployment_id) c refl
      refl

pub remove_block-IsConsistent :
    (s : Store) (a b : String) → IsConsistent s → IsConsistent (remove_block s a b).1
unfolding remove_block
remove_block-IsConsistent s a b c = same-IsConsistent s _ c refl refl

pub consume_nonce-IsConsistent :
    (s : Store) (d n : String) (until now : ℕ)
    → IsConsistent s
    → IsConsistent (consume_nonce s d n until now).1
unfolding consume_nonce
consume_nonce-IsConsistent s d n until now c =
    elim (Bool-cases (has (pair_key d n) (live_nonces now s.nonces))) [
      | inl h ↦ rw (h, consume_nonce) (same-IsConsistent s _ c refl refl)
      | inr h ↦ rw (h, consume_nonce) (same-IsConsistent s _ c refl refl)
    ]

pub consume_rate_limit-IsConsistent :
    (s : Store) (d : String) (now : ℕ)
    → IsConsistent s
    → IsConsistent (consume_rate_limit s d now).1
unfolding consume_rate_limit
consume_rate_limit-IsConsistent s d now c = elim (Option-cases (get d s.deployments)) [
  | inl n ↦ rw (n, consume_rate_limit) c
  | inr (x, n) ↦
      rw (n, consume_rate_limit)
        (elim (Bool-cases (
          leb x.max_requests_per_minute
            (requests_in d (window_start now) (live_windows (window_start now) s.rate_windows)))) [
              | inl h ↦ rw h (same-IsConsistent s _ c refl refl)
              | inr h ↦ rw h (same-IsConsistent s _ c refl refl)
            ])
]

pub create_attachment-IsConsistent :
    (s : Store) (i : AttachmentInput) (r : AttachmentResult) (s' : Store)
    → IsConsistent s
    → create_attachment s i ≡ ok (r, s')
    → IsConsistent s'
unfolding create_attachment
create_attachment-IsConsistent s i r s' c e = elim (Option-cases (get i.id s.attachments)) [
  | inl n ↦
      subst (λ (y : AttachmentResult × Store). IsConsistent y.1)
        (ok_inj (rw (n, create_attachment) at e)) (same-IsConsistent s _ c refl refl)
  | inr (a, n) ↦ elim (Bool-cases (is_attachment_of i a)) [
    | inl h ↦
        subst (λ (y : AttachmentResult × Store). IsConsistent y.1)
          (ok_inj (rw (n, create_attachment, h) at e)) c
    | inr h ↦ absurd (ground (arith, rw (n, create_attachment, h) at e))
  ]
]

pub mark_attachment_ready-IsConsistent :
    (s : Store) (id : String) (now : ℕ)
    → IsConsistent s
    → IsConsistent (mark_attachment_ready s id now).1
unfolding mark_attachment_ready
mark_attachment_ready-IsConsistent s id now c = elim (Option-cases (get id s.attachments)) [
  | inl n ↦ rw (n, mark_attachment_ready) c
  | inr (a, n) ↦
      rw (n, mark_attachment_ready)
        (elim (Bool-cases (is_gone a || leb a.expires_at now)) [
          | inl h ↦ rw h c
          | inr h ↦ rw h (same-IsConsistent s _ c refl refl)
        ])
]

pub expire_attachments-IsConsistent :
    (s : Store) (now : ℕ) → IsConsistent s → IsConsistent (expire_attachments s now).1
unfolding expire_attachments
expire_attachments-IsConsistent s now c = same-IsConsistent s _ c refl refl
