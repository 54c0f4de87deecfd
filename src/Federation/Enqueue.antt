-- ===== src/Federation/Enqueue.antt =====
-- `enqueueMessage` of src/modules/federation/memory-store.ts, with `messageFromEnvelope` of
-- src/modules/federation/store.ts.
use otto_control.Prelude.{
  ℕ, ◌+◌, String, ◌===◌, Bool, true, false, not, ◌&&◌, Option, none, some, List, Map, get, has, set,
  values, leb, ltb, if◌then◌else◌, is_some, select, any, length, total,
}
use otto_control.Errors.{
  Result, ok, err, conflict, capacity_exceeded, forbidden, ◌>>=◌, ◌>>◌, ensure, Failure,
}
use otto_control.Federation.Records.{
  Envelope, SignedEnvelope, Message, MessageStatus, MessageType, Grant, Deployment, Store,
}
use otto_control.Federation.Directory.{is_queued, pair_key}
use otto_control.Federation.Limits.{live_nonces}

pub record EnqueueInput : Type 0 where
  pub signed : SignedEnvelope
  pub ciphertext_sha256 : String
  pub size_bytes : ℕ
  pub now : ℕ

pub record EnqueueResult : Type 0 where
  pub message : Message
  pub duplicate : Bool

abbrev pub message_from_envelope : EnqueueInput → Message
message_from_envelope i = record {
  envelope = i.signed.envelope;
  signing_key_id = i.signed.signing_key_id;
  signature = i.signed.signature;
  ciphertext_sha256 = i.ciphertext_sha256;
  size_bytes = i.size_bytes;
  status = MessageStatus.pending;
  attempts = 0;
  claimed_until = none;
  delivered_at = none;
  created_at = i.now;
  claim_token_hash = none;
}

abbrev pub is_inbox : String → Message → Bool
is_inbox d m = m.envelope.recipient_deployment_id === d && is_queued m

unfoldable pub inbox : Store → String → List Message
inbox s d = select (is_inbox d) (values s.messages)

abbrev pub is_type : MessageType → MessageType → Bool
is_type MessageType.chat_message MessageType.chat_message = true
is_type MessageType.chat_receipt MessageType.chat_receipt = true
is_type MessageType.a2a_request MessageType.a2a_request = true
is_type MessageType.a2a_response MessageType.a2a_response = true
is_type _ _ = false

-- A lookup under a key that may be `undefined`.
abbrev pub get_opt {ℓ} : {V : Type ℓ} → Option String → Map V → Option V
get_opt none m = none
get_opt (some k) m = get k m

-- `scopes.includes(scope)`, false on `undefined`.
abbrev pub includes : List String → Option String → Bool
includes xs none = false
includes xs (some x) = any (λ y. y === x) xs

abbrev pub grant_admits : Envelope → ℕ → Grant → Bool
grant_admits e now g =
    g.owner_deployment_id === e.recipient_deployment_id
    && g.requester_deployment_id === e.sender_deployment_id
    && g.owner_principal_id === e.routing.recipient_principal_id
    && g.requester_principal_id === e.routing.sender_principal_id
    && includes g.scopes e.routing.a2a_scope
    && not (is_some g.revoked_at)
    && ltb now g.expires_at
    && ltb g.used_count g.max_uses

-- The grant that a request uses; other messages use none.
unfoldable pub used_grant : Store → EnqueueInput → Result (Option Grant)
used_grant s i =
    let e = i.signed.envelope in
    let refused = forbidden "A2A grant is invalid, expired, revoked, or already consumed" in
    if not (is_type e.kind MessageType.a2a_request)
    then ok none
    else elim (get_opt e.routing.a2a_grant_id s.grants) [
      | none ↦ err refused
      | some g ↦ if grant_admits e i.now g then ok (some g) else err refused
    ]

-- Whether a stored message is of a type and goes the way back.
abbrev pub answers : Envelope → MessageType → Message → Bool
answers e kind m =
    is_type m.envelope.kind kind
    && m.envelope.sender_deployment_id === e.recipient_deployment_id
    && m.envelope.recipient_deployment_id === e.sender_deployment_id
    && m.envelope.routing.sender_principal_id === e.routing.recipient_principal_id
    && m.envelope.routing.recipient_principal_id === e.routing.sender_principal_id

unfoldable pub check_reply :
    Store → Envelope → MessageType → MessageType → Failure → Result (Unit {0})
check_reply s e kind parent refused =
    if not (is_type e.kind kind) then ok tt else elim (get_opt e.routing.in_reply_to s.messages) [
      | none ↦ err refused
      | some m ↦ ensure (answers e parent m) refused
    ]

unfoldable pub check_response : Store → Envelope → Result (Unit {0})
check_response s e =
    check_reply s e MessageType.a2a_response MessageType.a2a_request
      (forbidden "A2A response does not match an authorized request")

unfoldable pub check_receipt : Store → Envelope → Result (Unit {0})
check_receipt s e =
    check_reply s e MessageType.chat_receipt MessageType.chat_message
      (forbidden "chat receipt does not match a delivered message route")

abbrev pub has_room : Deployment → List Message → ℕ → Bool
has_room d queued size =
    ltb (length queued) d.max_pending_messages
    && leb (total (λ m. m.size_bytes) queued + size) d.max_pending_bytes

unfoldable pub check_capacity : Store → EnqueueInput → Result (Unit {0})
check_capacity s i =
    let to = i.signed.envelope.recipient_deployment_id in
    let refused = capacity_exceeded "recipient federation inbox capacity is exhausted" in
    elim (get to s.deployments) [
      | none ↦ err refused
      | some d ↦ ensure (has_room d (inbox s to) i.size_bytes) refused
    ]

abbrev pub charge_grant : Option Grant → Map Grant → Map Grant
charge_grant none m = m
charge_grant (some g) m = set g.id (record g { used_count = g.used_count + 1 }) m

abbrev pub nonce_key : Envelope → String
nonce_key e = pair_key e.sender_deployment_id e.nonce

abbrev pub stored : Store → EnqueueInput → Option Grant → Store
stored s i g = record s {
  nonces =
      set (nonce_key i.signed.envelope) i.signed.envelope.expires_at (live_nonces i.now s.nonces);
  grants = charge_grant g s.grants;
  messages = set i.signed.envelope.message_id (message_from_envelope i) s.messages;
}

-- The nonces that have expired go even when the envelope's own nonce is refused.
unfoldable pub accept : Store → EnqueueInput → Option Grant → Result EnqueueResult × Store
accept s i g =
    if has (nonce_key i.signed.envelope) (live_nonces i.now s.nonces)
    then (
      err (conflict "federation envelope nonce has already been used"),
      record s { nonces = live_nonces i.now s.nonces },
    )
    else (ok (record { message = message_from_envelope i; duplicate = false }), stored s i g)

unfoldable pub authorize : Store → EnqueueInput → Result (Option Grant)
authorize s i = do
  check_capacity s i
  g ← used_grant s i
  check_response s i.signed.envelope
  check_receipt s i.signed.envelope
  ok g

abbrev pub is_duplicate_of : EnqueueInput → Message → Bool
is_duplicate_of i m =
    m.envelope.sender_deployment_id === i.signed.envelope.sender_deployment_id
    && m.ciphertext_sha256 === i.ciphertext_sha256

unfoldable pub enqueue_message : Store → EnqueueInput → Result EnqueueResult × Store
enqueue_message s i = elim (get i.signed.envelope.message_id s.messages) [
  | some m ↦
      if is_duplicate_of i m
      then (ok (record { message = m; duplicate = true }), s)
      else (err (conflict "messageId already belongs to a different federation envelope"), s)
  | none ↦ elim (authorize s i) [ err e ↦ (err e, s) | ok g ↦ accept s i g ]
]
