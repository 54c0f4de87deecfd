-- ===== src/Federation/Claims.antt =====
-- `claimMessages` and `acknowledgeMessage` of src/modules/federation/memory-store.ts. The hash of a
-- claim's token, the token that `randomBytes` draws for a claim and `localeCompare` are parameters.
use otto_control.Prelude.{
  ℕ, ◌+◌, String, ◌===◌, ◌=?◌, Bool, true, false, ◌&&◌, ◌||◌, Option, none, some, List, [], ◌∷◌,
  Map, get, set, values, leb, ltb, ◌==◌, if◌then◌else◌, select, take, sort_by,
}
use otto_control.Federation.Records.{Message, MessageStatus, Store}

pub record Claim : Type 0 where
  pub message : Message
  pub claim_token : String

pub record ClaimInput : Type 0 where
  pub recipient_deployment_id : String
  pub limit : ℕ
  pub maximum_bytes : ℕ
  pub claim_ttl_ms : ℕ
  pub now : ℕ

pub record AckInput : Type 0 where
  pub recipient_deployment_id : String
  pub message_id : String
  pub claim_token : String
  pub now : ℕ

-- `claimedUntil! <= now`, where `null` compares as 0.
abbrev pub lease_over : Option ℕ → ℕ → Bool
lease_over none now = true
lease_over (some t) now = leb t now

abbrev pub is_claimable : Message → ℕ → Bool
is_claimable m now = elim m.status [
  | MessageStatus.pending ↦ true
  | MessageStatus.claimed ↦ lease_over m.claimed_until now
  | MessageStatus.delivered ↦ false
  | MessageStatus.expired ↦ false
]

abbrev pub is_candidate : ClaimInput → Message → Bool
is_candidate i m =
    m.envelope.recipient_deployment_id === i.recipient_deployment_id
    && ltb i.now m.envelope.expires_at
    && is_claimable m i.now

abbrev pub older : (String → String → Bool) → Message → Message → Bool
older locale_lt x y =
    ltb x.created_at y.created_at
    || (x.created_at == y.created_at && locale_lt x.envelope.message_id y.envelope.message_id)

unfoldable pub candidates : (String → String → Bool) → Store → ClaimInput → List Message
candidates locale_lt s i =
    take i.limit (sort_by (older locale_lt) (select (is_candidate i) (values s.messages)))

module _ (claim_token_hash : String → String) (draw : Message → String) where
  abbrev pub claimed : ClaimInput → Message → Message
  claimed i m = record m {
    status = MessageStatus.claimed;
    attempts = m.attempts + 1;
    claimed_until = some (i.now + i.claim_ttl_ms);
    claim_token_hash = some (claim_token_hash (draw m));
  }

  -- The loop over the candidates: whether there is output already, its bytes, and the messages. The
  -- first candidate is claimed whatever its size.
  unfoldable pub claim_each :
      ClaimInput → Bool → ℕ → List Message → Map Message → List Claim × Map Message
  claim_each i some_output bytes [] ms = ([], ms)
  claim_each i some_output bytes (m ∷ rest) ms =
      let (out, ms') =
        claim_each i true (bytes + m.size_bytes) rest
          (set m.envelope.message_id (claimed i m) ms) in
      if some_output && ltb i.maximum_bytes (bytes + m.size_bytes)
      then ([], ms)
      else (record { message = claimed i m; claim_token = draw m } ∷ out, ms')

  unfoldable pub claim_messages : (String → String → Bool) → Store → ClaimInput → List Claim × Store
  claim_messages locale_lt s i =
      let (out, ms) = claim_each i false 0 (candidates locale_lt s i) s.messages in
      (out, record s { messages = ms })

  abbrev pub is_leased : AckInput → Message → Bool
  is_leased i m =
      m.envelope.recipient_deployment_id === i.recipient_deployment_id
      && elim m.status [
        | MessageStatus.claimed ↦ true
        | MessageStatus.pending ↦ false
        | MessageStatus.delivered ↦ false
        | MessageStatus.expired ↦ false
      ]
      && elim m.claimed_until [ none ↦ false | some t ↦ ltb i.now t ]
      && m.claim_token_hash =? some (claim_token_hash i.claim_token)

  abbrev pub delivered : ℕ → Message → Message
  delivered now m = record m {
    status = MessageStatus.delivered;
    claimed_until = none;
    claim_token_hash = none;
    delivered_at = some now;
  }

  unfoldable pub acknowledge_message : Store → AckInput → Bool × Store
  acknowledge_message s i = elim (get i.message_id s.messages) [
    | none ↦ (false, s)
    | some m ↦
        if is_leased i m
        then (true, record s { messages = set i.message_id (delivered i.now m) s.messages })
        else (false, s)
  ]
