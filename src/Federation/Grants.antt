-- ===== src/Federation/Grants.antt =====
-- The grants and the attachments: `createGrant` to `expireAttachments` of
-- src/modules/federation/memory-store.ts.
use otto_control.Prelude.{
  ℕ, String, ◌===◌, Bool, true, false, not, ◌&&◌, ◌||◌, Option, none, some, List, get, has, set,
  update, values, leb, ◌==◌, if◌then◌else◌, is_some, select, map,
}
use otto_control.Errors.{Result, ok, err, conflict}
use otto_control.Federation.Records.{Grant, Attachment, AttachmentStatus, Store}

pub record GrantInput : Type 0 where
  pub id : String
  pub owner_deployment_id : String
  pub requester_deployment_id : String
  pub owner_principal_id : String
  pub requester_principal_id : String
  pub scopes : List String
  pub max_uses : ℕ
  pub expires_at : ℕ
  pub now : ℕ

abbrev pub new_grant : GrantInput → Grant
new_grant i = record {
  id = i.id;
  owner_deployment_id = i.owner_deployment_id;
  requester_deployment_id = i.requester_deployment_id;
  owner_principal_id = i.owner_principal_id;
  requester_principal_id = i.requester_principal_id;
  scopes = i.scopes;
  max_uses = i.max_uses;
  used_count = 0;
  expires_at = i.expires_at;
  revoked_at = none;
  created_at = i.now;
}

unfoldable pub create_grant : Store → GrantInput → Result (Grant × Store)
create_grant s i =
    if has i.id s.grants
    then err (conflict "A2A grant already exists")
    else ok (new_grant i, record s { grants = set i.id (new_grant i) s.grants })

unfoldable pub revoke_grant : Store → String → String → ℕ → Bool × Store
revoke_grant s owner id now = elim (get id s.grants) [
  | none ↦ (false, s)
  | some g ↦
      if not (g.owner_deployment_id === owner) || is_some g.revoked_at
      then (false, s)
      else (true, record s { grants = set id (record g { revoked_at = some now }) s.grants })
]

pub record AttachmentInput : Type 0 where
  pub id : String
  pub sender_deployment_id : String
  pub recipient_deployment_id : String
  pub object_key : String
  pub ciphertext_bytes : ℕ
  pub ciphertext_sha256 : String
  pub expires_at : ℕ
  pub now : ℕ

pub record AttachmentResult : Type 0 where
  pub attachment : Attachment
  pub duplicate : Bool

abbrev pub new_attachment : AttachmentInput → Attachment
new_attachment i = record {
  id = i.id;
  sender_deployment_id = i.sender_deployment_id;
  recipient_deployment_id = i.recipient_deployment_id;
  object_key = i.object_key;
  ciphertext_bytes = i.ciphertext_bytes;
  ciphertext_sha256 = i.ciphertext_sha256;
  status = AttachmentStatus.pending;
  expires_at = i.expires_at;
  ready_at = none;
  created_at = i.now;
}

abbrev pub is_attachment_of : AttachmentInput → Attachment → Bool
is_attachment_of i a =
    a.sender_deployment_id === i.sender_deployment_id
    && a.recipient_deployment_id === i.recipient_deployment_id
    && a.ciphertext_bytes == i.ciphertext_bytes
    && a.ciphertext_sha256 === i.ciphertext_sha256

unfoldable pub create_attachment : Store → AttachmentInput → Result (AttachmentResult × Store)
create_attachment s i = elim (get i.id s.attachments) [
  | some a ↦
      if is_attachment_of i a
      then ok (record { attachment = a; duplicate = true }, s)
      else err (conflict "attachment id already belongs to another ciphertext object")
  | none ↦ ok (
    record { attachment = new_attachment i; duplicate = false },
    record s { attachments = set i.id (new_attachment i) s.attachments },
  )
]

abbrev pub is_gone : Attachment → Bool
is_gone a = elim a.status [
  | AttachmentStatus.pending ↦ false
  | AttachmentStatus.ready ↦ false
  | AttachmentStatus.expired ↦ true
]

-- `attachment.readyAt ??= now`.
abbrev pub or_else {ℓ} : {A : Type ℓ} → Option A → A → Option A
or_else none a = some a
or_else (some b) a = some b

unfoldable pub mark_attachment_ready : Store → String → ℕ → Option Attachment × Store
mark_attachment_ready s id now = elim (get id s.attachments) [
  | none ↦ (none, s)
  | some a ↦
      if is_gone a || leb a.expires_at now
      then (none, s)
      else let row : Attachment = record a {
        status = AttachmentStatus.ready;
        ready_at = or_else a.ready_at now;
      } in
        (some row, record s { attachments = set id row s.attachments })
]

abbrev pub is_overdue : ℕ → Attachment → Bool
is_overdue now a = not (is_gone a) && leb a.expires_at now

abbrev pub gone : Attachment → Attachment
gone a = record a { status = AttachmentStatus.expired }

unfoldable pub expire_attachments : Store → ℕ → List Attachment × Store
expire_attachments s now = (
  map gone (select (is_overdue now) (values s.attachments)),
  record s { attachments = update (λ a. if is_overdue now a then gone a else a) s.attachments },
)
