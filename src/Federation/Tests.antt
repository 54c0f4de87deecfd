-- ===== src/Federation/Tests.antt =====
-- Runs of the relay's store on small inputs. The hash, the tokens and the order of texts are
-- concrete functions here.
use otto_control.Prelude.{
  values, String, Bool, true, false, none, some, [], ◌∷◌, ◌≡◌, refl, ◌≤◌, ◌-◌, ◌+◌, arith, All, leb,
  length, total, ◌⊎◌, get, if◌then◌else◌,
}
use otto_control.Federation.Sweep.{expire_messages, queue_stats, queue_bytes}
use otto_control.Federation.Swept.{expire_messages_sweeps}
use otto_control.Federation.Counted.{enqueue_message_counted, IsGrown}
use otto_control.Federation.Enqueue.{
  accept, check_receipt, check_reply, check_response, used_grant, check_capacity, authorize,
  EnqueueInput, EnqueueResult, enqueue_message, inbox, grant_admits, get_opt, message_from_envelope,
}
use otto_control.Federation.Claims.{
  candidates, claim_each, ClaimInput, claim_messages, AckInput, acknowledge_message,
}
use otto_control.Errors.{err, conflict}
use otto_control.Federation.Records.{
  Store, Message, MessageType, Deployment, DeploymentStatus, Grant, Block,
}
use otto_control.Federation.Directory.{
  DeploymentInput, register_deployment, KeyInput, register_key, revoke_key, get_active_key,
  get_verification_key, is_signed_by, set_block, is_blocked, is_between, set_deployment_status,
  is_party,
}
use otto_control.Federation.Grants.{GrantInput, create_grant}
use otto_control.Federation.Limits.{consume_nonce, requests_in}
use otto_control.Federation.Lifecycle.{IsConsistent}
use otto_control.Federation.Steps.{
  sweeping, consuming_nonce, registering, granting, enqueuing, Reached, empty, next, empty_store,
  reached-IsConsistent, left,
}
use otto_control.Federation.Handover.{acknowledge_message-claim_messages, ack_of}
use otto_control.Federation.Settled.{acknowledge_once}
use otto_control.Federation.Portions.{claim_portion, size_of}
use otto_control.Federation.Barriers.{
  revoke_key_cuts, set_block_cuts, set_deployment_status_cuts, NoneQueued,
}
use otto_control.Federation.Capacity.{enqueue_message_capacity}
use otto_control.Federation.Replay.{consume_nonce_once, enqueue_message_once}
use otto_control.Federation.Remembered.{Later, here, after}
use otto_control.Federation.Granted.{enqueue_message_granted}
use otto_control.Federation.Windows.{accepted, accepted_limit}

abbrev hash : String → String
hash x = x

abbrev draw : Message → String
draw m = m.envelope.message_id

abbrev locale_lt : String → String → Bool
locale_lt x y = false

abbrev bob : DeploymentInput
bob = record {
  id = "bob";
  display_name = "Bob";
  origin = "https://bob.example";
  capabilities = [];
  max_pending_messages = 2;
  max_pending_bytes = 100;
  max_requests_per_minute = 2;
  now = 1;
}

abbrev permission : GrantInput
permission = record {
  id = "g1";
  owner_deployment_id = "bob";
  requester_deployment_id = "ann";
  owner_principal_id = "b";
  requester_principal_id = "a";
  scopes = "read" ∷ [];
  max_uses = 3;
  expires_at = 1000;
  now = 1;
}

abbrev request : EnqueueInput
request = record {
  signed = record {
    envelope = record {
      message_id = "m1";
      kind = MessageType.a2a_request;
      sender_deployment_id = "ann";
      recipient_deployment_id = "bob";
      issued_at = 2;
      expires_at = 500;
      nonce = "n1";
      ciphertext = "c";
      routing = record {
        conversation_id = "c1";
        sender_principal_id = "a";
        recipient_principal_id = "b";
        in_reply_to = none;
        a2a_grant_id = some "g1";
        a2a_scope = some "read";
        attachment_ids = [];
      };
    };
    signing_key_id = "k1";
    signature = "s";
  };
  ciphertext_sha256 = "sha";
  size_bytes = 60;
  now = 3;
}

abbrev ready : Store
ready =
    left (register_deployment empty_store bob).1
      (create_grant (register_deployment empty_store bob).1 permission)

abbrev queued : Store
queued = (enqueue_message ready request).1

abbrev queued-Reached : Reached hash draw locale_lt queued
queued-Reached =
    next (next (next empty (registering bob)) (granting permission)) (enqueuing request)

reached-IsConsistent_example : IsConsistent queued
reached-IsConsistent_example = reached-IsConsistent hash draw locale_lt queued queued-Reached

abbrev claim : ClaimInput
claim = record {
  recipient_deployment_id = "bob";
  limit = 10;
  maximum_bytes = 50;
  claim_ttl_ms = 30;
  now = 10;
}

acknowledge_message-claim_messages_example :
    All
      (λ x.
        (acknowledge_message hash draw
          (claim_messages hash draw locale_lt queued claim).1
          (ack_of hash draw claim 20 x)).0
        ≡ true)
      (claim_messages hash draw locale_lt queued claim).0
acknowledge_message-claim_messages_example =
    acknowledge_message-claim_messages hash draw locale_lt queued claim 20
      (reached-IsConsistent hash draw locale_lt queued queued-Reached) (omega arith)

claim_portion_example :
    (length (claim_messages hash draw locale_lt queued claim).0 ≤ 10)
    × ((size_of hash draw (claim_messages hash draw locale_lt queued claim).0 ≤ 50)
        ⊎ (length (claim_messages hash draw locale_lt queued claim).0 ≤ 1))
claim_portion_example = claim_portion hash draw locale_lt queued claim

abbrev claimed_store : Store
claimed_store = (claim_messages hash draw locale_lt queued claim).1

abbrev receipt : AckInput
receipt = record {
  recipient_deployment_id = "bob";
  message_id = "m1";
  claim_token = "m1";
  now = 20;
}

acknowledge_once_example :
    acknowledge_message hash draw (acknowledge_message hash draw claimed_store receipt).1 receipt
    ≡ (false, (acknowledge_message hash draw claimed_store receipt).1)
unfolding acknowledge_message claim_messages claim_each candidates enqueue_message create_grant
    register_deployment authorize check_capacity inbox used_grant check_response check_reply
    check_receipt accept
acknowledge_once_example = acknowledge_once hash draw claimed_store receipt receipt refl refl

abbrev bob_row : Deployment
bob_row = (register_deployment empty_store bob).0

abbrev accepted_request : EnqueueResult
accepted_request = record { message = message_from_envelope request; duplicate = false }

enqueue_message_capacity_example :
    (length (inbox queued "bob") ≤ 2) × (total (λ m. m.size_bytes) (inbox queued "bob") ≤ 100)
unfolding enqueue_message create_grant register_deployment authorize check_capacity inbox used_grant
    check_response check_reply check_receipt accept
enqueue_message_capacity_example =
    enqueue_message_capacity ready request accepted_request queued bob_row refl refl refl

abbrev repeated : EnqueueResult
repeated = record accepted_request { duplicate = true }

-- Between the two calls the relay forgets other nonces and uses one more.
abbrev swept : Store
swept = (expire_messages queued 4 0).1

abbrev used : Store
used = (consume_nonce swept "bob" "other" 40 5).1

between : Later hash draw locale_lt request.signed.envelope.expires_at queued used
between =
    after (after here (sweeping 4 0) (omega arith)) (consuming_nonce "bob" "other" 40 5)
      (omega arith)

-- The first message again under its own id: its nonce is taken, and the call reports a duplicate.
enqueue_message_once_example : repeated.duplicate ≡ true
unfolding enqueue_message create_grant register_deployment authorize check_capacity inbox used_grant
    check_response check_reply check_receipt accept consume_nonce expire_messages
enqueue_message_once_example =
    enqueue_message_once hash draw locale_lt ready queued used used request request accepted_request
      repeated refl refl between refl (omega arith) refl

abbrev permission_row : Grant
permission_row = record {
  id = "g1";
  owner_deployment_id = "bob";
  requester_deployment_id = "ann";
  owner_principal_id = "b";
  requester_principal_id = "a";
  scopes = "read" ∷ [];
  max_uses = 3;
  used_count = 0;
  expires_at = 1000;
  revoked_at = none;
  created_at = 1;
}

enqueue_message_granted_example :
    (g : Grant) × (get_opt (some "g1") ready.grants ≡ some g)
    × (grant_admits request.signed.envelope 3 g ≡ true)
    × (get g.id queued.grants ≡ some (record g { used_count = g.used_count + 1 }))
unfolding enqueue_message create_grant register_deployment authorize check_capacity inbox used_grant
    check_response check_reply check_receipt accept
enqueue_message_granted_example =
    enqueue_message_granted ready request accepted_request queued refl refl refl

abbrev noted : Store
noted = (consume_nonce empty_store "ann" "n" 50 1).1

consume_nonce_once_example :
    (consume_nonce (consume_nonce noted "bob" "m" 60 20).1 "ann" "n" 90 40).0 ≡ false
unfolding consume_nonce
consume_nonce_once_example =
    consume_nonce_once hash draw locale_lt empty_store (consume_nonce noted "bob" "m" 60 20).1 "ann"
      "n" 50 90 1 40 refl (after here (consuming_nonce "bob" "m" 60 20) (omega arith)) (omega arith)

accepted_limit_example :
    accepted ready "bob" (60_001 ∷ 60_002 ∷ 60_003 ∷ [])
    ≡ (let left = 2 - requests_in "bob" 60_000 ready.rate_windows in if leb 3 left then 3 else left)
unfolding create_grant register_deployment
accepted_limit_example =
    accepted_limit ready "bob" bob_row 60_000 (60_001 ∷ 60_002 ∷ 60_003 ∷ []) refl
      (refl, (refl, (refl, tt)))

abbrev ann_key : KeyInput
ann_key = record {
  deployment_id = "ann";
  key_id = "k1";
  public_key_pem = "pem";
  not_before = 0;
  expires_at = none;
  now = 1;
}

abbrev keyed : Store
keyed = left queued (register_key queued ann_key)

revoke_key_cuts_example :
    (register_key (revoke_key keyed "ann" "k1" 9).1 ann_key
      ≡ err (conflict "a revoked federation key id cannot be reused"))
    × (get_active_key (revoke_key keyed "ann" "k1" 9).1 "ann" "k1" 10 ≡ none)
    × (get_verification_key (revoke_key keyed "ann" "k1" 9).1 "ann" "k1" ≡ none)
    × NoneQueued (is_signed_by "ann" "k1") (revoke_key keyed "ann" "k1" 9).1
unfolding revoke_key register_key enqueue_message create_grant register_deployment authorize
    check_capacity inbox used_grant check_response check_reply check_receipt accept
revoke_key_cuts_example = revoke_key_cuts keyed "ann" "k1" 9 10 ann_key refl refl refl

abbrev refusal : Block
refusal = record {
  blocker_deployment_id = "bob";
  blocked_deployment_id = "ann";
  reason = "spam";
  created_at = 9;
}

set_block_cuts_example :
    (is_blocked (set_block queued refusal) "bob" "ann" ≡ true)
    × (is_blocked (set_block queued refusal) "ann" "bob" ≡ true)
    × NoneQueued (is_between "bob" "ann") (set_block queued refusal)
set_block_cuts_example = set_block_cuts queued refusal

set_deployment_status_cuts_example :
    NoneQueued (is_party "bob") (set_deployment_status queued "bob" DeploymentStatus.disabled 9).1
unfolding enqueue_message create_grant register_deployment authorize check_capacity inbox used_grant
    check_response check_reply check_receipt accept
set_deployment_status_cuts_example =
    set_deployment_status_cuts queued "bob" DeploymentStatus.disabled 9 refl refl

expire_messages_sweeps_example :
    NoneQueued (λ m. leb m.envelope.expires_at 600) (expire_messages queued 600 550).1
    × (length (values (expire_messages queued 600 550).1.messages)
          + (expire_messages queued 600 550).0.purged
        ≡ length (values queued.messages))
expire_messages_sweeps_example = expire_messages_sweeps queued 600 550

enqueue_message_counted_example :
    IsGrown 1 (queue_stats ready) (queue_stats queued)
    × IsGrown request.size_bytes (queue_bytes ready) (queue_bytes queued)
unfolding enqueue_message create_grant register_deployment authorize check_capacity inbox used_grant
    check_response check_reply check_receipt accept
enqueue_message_counted_example =
    enqueue_message_counted ready request accepted_request queued refl refl
