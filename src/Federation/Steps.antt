-- ===== src/Federation/Steps.antt =====
-- The calls of the relay's store as a step relation, and the stores that they reach. Each method of
-- src/modules/federation/memory-store.ts runs to its end before another starts: none awaits.
use otto_control.Prelude.{ℕ, String, Bool, [], ◌≡◌, refl, arith}
use otto_control.Errors.{Result, ok}
use otto_control.Federation.Records.{Message, Store, DeploymentStatus, Block, AuditEvent}
use otto_control.Federation.Directory.{
  DeploymentInput, register_deployment, set_deployment_status, KeyInput, register_key, revoke_key,
  set_block, remove_block,
}
use otto_control.Federation.Grants.{
  GrantInput, create_grant, revoke_grant, AttachmentInput, create_attachment, mark_attachment_ready,
  expire_attachments,
}
use otto_control.Federation.Limits.{consume_nonce, consume_rate_limit}
use otto_control.Federation.Enqueue.{EnqueueInput, enqueue_message}
use otto_control.Federation.Claims.{ClaimInput, claim_messages, AckInput, acknowledge_message}
use otto_control.Federation.Sweep.{append_audit_event, expire_messages}
use otto_control.Federation.Lifecycle.{IsConsistent}
use otto_control.Federation.Kept.{
  same-IsConsistent, set_deployment_status-IsConsistent, revoke_key-IsConsistent,
  create_grant-IsConsistent, revoke_grant-IsConsistent,
}
use otto_control.Federation.Queued.{
  enqueue_message-IsConsistent, claim_messages-IsConsistent, acknowledge_message-IsConsistent,
  expire_messages-IsConsistent,
}
use otto_control.Federation.Aside.{
  register_deployment-IsConsistent, register_key-IsConsistent, set_block-IsConsistent,
  remove_block-IsConsistent, consume_nonce-IsConsistent, consume_rate_limit-IsConsistent,
  create_attachment-IsConsistent, mark_attachment_ready-IsConsistent,
  expire_attachments-IsConsistent,
}

-- What a call that throws leaves: it has written nothing yet.
abbrev pub left {ℓ} : {A : Type ℓ} → Store → Result (A × Store) → Store
left s (ok (r, s')) = s'
left s (Result.err e) = s

abbrev pub empty_store : Store
empty_store = record {
  deployments = [];
  keys = [];
  nonces = [];
  blocks = [];
  grants = [];
  attachments = [];
  messages = [];
  rate_windows = [];
  audit_events = [];
}

module _ (hash : String → String) (draw : Message → String)
    (locale_lt : String → String → Bool) where
  pub data Step (s : Store) : Store → Type 0 where
    registering : (i : DeploymentInput) → Step s (register_deployment s i).1
    setting_status :
        (d : String) (x : DeploymentStatus) (now : ℕ) → Step s (set_deployment_status s d x now).1
    adding_key : (i : KeyInput) → Step s (left s (register_key s i))
    revoking_key : (d k : String) (now : ℕ) → Step s (revoke_key s d k now).1
    consuming_nonce : (d n : String) (until now : ℕ) → Step s (consume_nonce s d n until now).1
    blocking : (i : Block) → Step s (set_block s i)
    unblocking : (a b : String) → Step s (remove_block s a b).1
    limiting : (d : String) (now : ℕ) → Step s (consume_rate_limit s d now).1
    granting : (i : GrantInput) → Step s (left s (create_grant s i))
    revoking_grant : (owner id : String) (now : ℕ) → Step s (revoke_grant s owner id now).1
    attaching : (i : AttachmentInput) → Step s (left s (create_attachment s i))
    readying : (id : String) (now : ℕ) → Step s (mark_attachment_ready s id now).1
    expiring_attachments : (now : ℕ) → Step s (expire_attachments s now).1
    enqueuing : (i : EnqueueInput) → Step s (enqueue_message s i).1
    claiming : (i : ClaimInput) → Step s (claim_messages hash draw locale_lt s i).1
    acknowledging : (i : AckInput) → Step s (acknowledge_message hash draw s i).1
    auditing : (e : AuditEvent) → Step s (append_audit_event s e)
    sweeping : (now before : ℕ) → Step s (expire_messages s now before).1

  pub data Reached : Store → Type 0 where
    empty : Reached empty_store
    next : {s s' : Store} → Reached s → Step s s' → Reached s'

  left-IsConsistent :
      {A : Type 0} (s : Store) (m : Result (A × Store))
      → IsConsistent s
      → ((r : A) (s' : Store) → m ≡ ok (r, s') → IsConsistent s')
      → IsConsistent (left s m)
  left-IsConsistent s (ok (r, s')) c h = h r s' refl
  left-IsConsistent s (Result.err e) c h = c

  Step-IsConsistent : {s s' : Store} → Step s s' → IsConsistent s → IsConsistent s'
  unfolding append_audit_event
  Step-IsConsistent {s} (registering i) c = register_deployment-IsConsistent s i c
  Step-IsConsistent {s} (setting_status d x now) c = set_deployment_status-IsConsistent s d x now c
  Step-IsConsistent {s} (adding_key i) c =
      left-IsConsistent s (register_key s i) c (λ r s' e. register_key-IsConsistent s i r s' c e)
  Step-IsConsistent {s} (revoking_key d k now) c = revoke_key-IsConsistent s d k now c
  Step-IsConsistent {s} (consuming_nonce d n until now) c =
      consume_nonce-IsConsistent s d n until now c
  Step-IsConsistent {s} (blocking i) c = set_block-IsConsistent s i c
  Step-IsConsistent {s} (unblocking a b) c = remove_block-IsConsistent s a b c
  Step-IsConsistent {s} (limiting d now) c = consume_rate_limit-IsConsistent s d now c
  Step-IsConsistent {s} (granting i) c =
      left-IsConsistent s (create_grant s i) c (λ r s' e. create_grant-IsConsistent s i r s' c e)
  Step-IsConsistent {s} (revoking_grant owner id now) c = revoke_grant-IsConsistent s owner id now c
  Step-IsConsistent {s} (attaching i) c =
      left-IsConsistent s (create_attachment s i) c
        (λ r s' e. create_attachment-IsConsistent s i r s' c e)
  Step-IsConsistent {s} (readying id now) c = mark_attachment_ready-IsConsistent s id now c
  Step-IsConsistent {s} (expiring_attachments now) c = expire_attachments-IsConsistent s now c
  Step-IsConsistent {s} (enqueuing i) c = enqueue_message-IsConsistent s i c
  Step-IsConsistent {s} (claiming i) c = claim_messages-IsConsistent hash draw locale_lt s i c
  Step-IsConsistent {s} (acknowledging i) c = acknowledge_message-IsConsistent hash draw s i c
  Step-IsConsistent {s} (auditing e) c = same-IsConsistent s _ c refl refl
  Step-IsConsistent {s} (sweeping now before) c = expire_messages-IsConsistent s now before c

  -- In every store that calls reach from the empty one, a message stands once and under its own
  -- id, has a lease and a token's hash exactly while it is claimed and a time of delivery exactly
  -- when it is delivered, and no grant is used more often than it allows.
  pub reached-IsConsistent : (s : Store) → Reached s → IsConsistent s
  reached-IsConsistent s empty = record { each = tt; unique = λ k. omega arith; granted = tt }
  reached-IsConsistent s (next {s = s0} r step) = Step-IsConsistent step (reached-IsConsistent s0 r)
