-- ===== src/Federation/Records.antt =====
-- The records of src/contracts/federation.ts, the inputs of src/modules/federation/store.ts, and the
-- maps of `MemoryFederationStore`.
use otto_control.Prelude.{ℕ, String, Option, List, Map}

pub data DeploymentStatus : Type 0 where
  active blocked disabled : DeploymentStatus

pub data KeyStatus : Type 0 where
  active revoked : KeyStatus

pub data MessageStatus : Type 0 where
  pending claimed delivered expired : MessageStatus

pub data MessageType : Type 0 where
  chat_message chat_receipt a2a_request a2a_response : MessageType

pub data AttachmentStatus : Type 0 where
  pending ready expired : AttachmentStatus

pub record Deployment : Type 0 where
  pub id : String
  pub display_name : String
  pub origin : String
  pub status : DeploymentStatus
  pub capabilities : List String
  pub max_pending_messages : ℕ
  pub max_pending_bytes : ℕ
  pub max_requests_per_minute : ℕ
  pub created_at : ℕ
  pub updated_at : ℕ

pub record DeploymentKey : Type 0 where
  pub deployment_id : String
  pub key_id : String
  pub public_key_pem : String
  pub status : KeyStatus
  pub not_before : ℕ
  pub expires_at : Option ℕ
  pub revoked_at : Option ℕ
  pub created_at : ℕ

pub record Routing : Type 0 where
  pub conversation_id : String
  pub sender_principal_id : String
  pub recipient_principal_id : String
  pub in_reply_to : Option String
  pub a2a_grant_id : Option String
  pub a2a_scope : Option String
  pub attachment_ids : List String

-- The constants `version` and `contentType` are left out.
pub record Envelope : Type 0 where
  pub message_id : String
  pub kind : MessageType
  pub sender_deployment_id : String
  pub recipient_deployment_id : String
  pub issued_at : ℕ
  pub expires_at : ℕ
  pub nonce : String
  pub ciphertext : String
  pub routing : Routing

pub record SignedEnvelope : Type 0 where
  pub envelope : Envelope
  pub signing_key_id : String
  pub signature : String

-- `MemoryMessage`: a stored message with the hash of its claim's token.
pub record Message : Type 0 where
  pub envelope : Envelope
  pub signing_key_id : String
  pub signature : String
  pub ciphertext_sha256 : String
  pub size_bytes : ℕ
  pub status : MessageStatus
  pub attempts : ℕ
  pub claimed_until : Option ℕ
  pub delivered_at : Option ℕ
  pub created_at : ℕ
  pub claim_token_hash : Option String

pub record Grant : Type 0 where
  pub id : String
  pub owner_deployment_id : String
  pub requester_deployment_id : String
  pub owner_principal_id : String
  pub requester_principal_id : String
  pub scopes : List String
  pub max_uses : ℕ
  pub used_count : ℕ
  pub expires_at : ℕ
  pub revoked_at : Option ℕ
  pub created_at : ℕ

pub record Block : Type 0 where
  pub blocker_deployment_id : String
  pub blocked_deployment_id : String
  pub reason : String
  pub created_at : ℕ

pub record Attachment : Type 0 where
  pub id : String
  pub sender_deployment_id : String
  pub recipient_deployment_id : String
  pub object_key : String
  pub ciphertext_bytes : ℕ
  pub ciphertext_sha256 : String
  pub status : AttachmentStatus
  pub expires_at : ℕ
  pub ready_at : Option ℕ
  pub created_at : ℕ

pub record AuditEvent : Type 0 where
  pub actor_deployment_id : String
  pub action : String
  pub target_type : String
  pub target_id : String
  pub details : List (String × String)
  pub occurred_at : ℕ

-- A count of accepted requests, under its key `<deployment>:<start of the window>`.
pub record RateWindow : Type 0 where
  pub deployment_id : String
  pub started_at : ℕ
  pub requests : ℕ

pub record Store : Type 0 where
  pub deployments : Map Deployment
  pub keys : Map DeploymentKey
  pub nonces : Map ℕ
  pub blocks : Map Block
  pub grants : Map Grant
  pub attachments : Map Attachment
  pub messages : Map Message
  pub rate_windows : List RateWindow
  pub audit_events : List AuditEvent
