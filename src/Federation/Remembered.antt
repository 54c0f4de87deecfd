-- ===== src/Federation/Remembered.antt =====
-- A nonce that is taken stays so through any calls of the relay, until it expires.
use otto_control.Prelude.{ℕ, String, ◌<◌, Bool, Map, ◌≡◌, arith}
use otto_control.Federation.Records.{Message, Store, DeploymentStatus}
use otto_control.Federation.Directory.{
  set_deployment_status, register_deployment, KeyInput, register_key, revoke_key, set_block,
  remove_block,
}
use otto_control.Federation.Grants.{
  GrantInput, create_grant, revoke_grant, AttachmentInput, create_attachment, mark_attachment_ready,
  expire_attachments,
}
use otto_control.Federation.Limits.{consume_rate_limit}
use otto_control.Federation.Claims.{claim_messages, AckInput, acknowledge_message}
use otto_control.Federation.Sweep.{append_audit_event, expire_messages}
use otto_control.Federation.Steps.{
  Step, left, registering, setting_status, adding_key, revoking_key, consuming_nonce, blocking,
  unblocking, limiting, granting, revoking_grant, attaching, readying, expiring_attachments,
  enqueuing, claiming, acknowledging, auditing, sweeping,
}
use otto_control.Federation.Nonces.{
  IsTaken, live-IsTaken, consume_nonce-IsTaken, enqueue_message-IsTaken,
}

-- The calls that never read the map of nonces leave it as it is.
set_deployment_status-nonces :
    (s : Store) (d : String) (x : DeploymentStatus) (now : ℕ)
    → (set_deployment_status s d x now).1.nonces ≡ s.nonces
unfolding set_deployment_status
set_deployment_status-nonces s d x now = ground arith

left-register_key-nonces :
    (s : Store) (i : KeyInput) → (left s (register_key s i)).nonces ≡ s.nonces
unfolding register_key
left-register_key-nonces s i = ground arith

revoke_key-nonces :
    (s : Store) (d k : String) (now : ℕ) → (revoke_key s d k now).1.nonces ≡ s.nonces
unfolding revoke_key
revoke_key-nonces s d k now = ground arith

consume_rate_limit-nonces :
    (s : Store) (d : String) (now : ℕ) → (consume_rate_limit s d now).1.nonces ≡ s.nonces
unfolding consume_rate_limit
consume_rate_limit-nonces s d now = ground arith

left-create_grant-nonces :
    (s : Store) (i : GrantInput) → (left s (create_grant s i)).nonces ≡ s.nonces
unfolding create_grant
left-create_grant-nonces s i = ground arith

revoke_grant-nonces :
    (s : Store) (owner id : String) (now : ℕ) → (revoke_grant s owner id now).1.nonces ≡ s.nonces
unfolding revoke_grant
revoke_grant-nonces s owner id now = ground arith

left-create_attachment-nonces :
    (s : Store) (i : AttachmentInput) → (left s (create_attachment s i)).nonces ≡ s.nonces
unfolding create_attachment
left-create_attachment-nonces s i = ground arith

mark_attachment_ready-nonces :
    (s : Store) (id : String) (now : ℕ) → (mark_attachment_ready s id now).1.nonces ≡ s.nonces
unfolding mark_attachment_ready
mark_attachment_ready-nonces s id now = ground arith

module _ (hash : String → String) (draw : Message → String)
    (locale_lt : String → String → Bool) where
  acknowledge_message-nonces :
      (s : Store) (i : AckInput) → (acknowledge_message hash draw s i).1.nonces ≡ s.nonces
  unfolding acknowledge_message
  acknowledge_message-nonces s i = ground arith

  -- The calls that purge nonces run before the instant; others may run at any time.
  abbrev pub IsEarly : ℕ → {s s' : Store} → Step hash draw locale_lt s s' → Type 0
  IsEarly until (consuming_nonce d n expires_at now) = now < until
  IsEarly until (enqueuing i) = i.now < until
  IsEarly until (sweeping now before) = now < until
  IsEarly until _ = Unit

  -- Calls of the relay that start from a store, all of them early.
  pub data Later (until : ℕ) (s : Store) : Store → Type 0 where
    here : Later until s s
    after :
        {t u : Store}
        → Later until s t
        → (step : Step hash draw locale_lt t u) → IsEarly until step
        → Later until s u

  kept : (k : String) (until : ℕ) (m m' : Map ℕ) → m' ≡ m → IsTaken k until m → IsTaken k until m'
  kept k until m m' same t = rw same t

  Step-IsTaken :
      (k : String) (until : ℕ) {s s' : Store} (step : Step hash draw locale_lt s s')
      → IsEarly until step
      → IsTaken k until s.nonces
      → IsTaken k until s'.nonces
  unfolding append_audit_event register_deployment set_block remove_block claim_messages
      expire_attachments expire_messages
  Step-IsTaken k until (registering i) early t = t
  Step-IsTaken k until {s} (setting_status d x now) early t =
      kept k until s.nonces _ (set_deployment_status-nonces s d x now) t
  Step-IsTaken k until {s} (adding_key i) early t =
      kept k until s.nonces _ (left-register_key-nonces s i) t
  Step-IsTaken k until {s} (revoking_key d x now) early t =
      kept k until s.nonces _ (revoke_key-nonces s d x now) t
  Step-IsTaken k until {s} (consuming_nonce d n expires_at now) early t =
      consume_nonce-IsTaken k until s d n expires_at now early t
  Step-IsTaken k until (blocking i) early t = t
  Step-IsTaken k until (unblocking a b) early t = t
  Step-IsTaken k until {s} (limiting d now) early t =
      kept k until s.nonces _ (consume_rate_limit-nonces s d now) t
  Step-IsTaken k until {s} (granting i) early t =
      kept k until s.nonces _ (left-create_grant-nonces s i) t
  Step-IsTaken k until {s} (revoking_grant owner id now) early t =
      kept k until s.nonces _ (revoke_grant-nonces s owner id now) t
  Step-IsTaken k until {s} (attaching i) early t =
      kept k until s.nonces _ (left-create_attachment-nonces s i) t
  Step-IsTaken k until {s} (readying id now) early t =
      kept k until s.nonces _ (mark_attachment_ready-nonces s id now) t
  Step-IsTaken k until (expiring_attachments now) early t = t
  Step-IsTaken k until {s} (enqueuing i) early t = enqueue_message-IsTaken k until s i early t
  Step-IsTaken k until (claiming i) early t = t
  Step-IsTaken k until {s} (acknowledging i) early t =
      kept k until s.nonces _ (acknowledge_message-nonces s i) t
  Step-IsTaken k until (auditing e) early t = t
  Step-IsTaken k until {s} (sweeping now before) early t = live-IsTaken k until now s.nonces early t

  pub Later-IsTaken :
      (k : String) (until : ℕ) {s s' : Store}
      → Later until s s'
      → IsTaken k until s.nonces
      → IsTaken k until s'.nonces
  Later-IsTaken k until here t = t
  Later-IsTaken k until (after {t = u} l step early) t =
      Step-IsTaken k until step early (Later-IsTaken k until l t)
