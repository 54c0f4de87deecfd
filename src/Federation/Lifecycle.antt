-- ===== src/Federation/Lifecycle.antt =====
-- The steps of the relay's store and what all of them keep.
use otto_control.Prelude.{
  values, ltb, All-take, All-sort_by, All-select_from, ℕ, ◌+◌, ◌≤◌, String, Bool, true, false, not,
  ◌&&◌, List, [], ◌∷◌, Map, update, count, All, All-set, All-update, count-set, is_some, Bool-cases,
  inl, inr, ◌≡◌, refl, arith, select,
}
use otto_control.Federation.Records.{Message, MessageStatus, Grant, Store}
use otto_control.Federation.Directory.{expire_if, is_queued}
use otto_control.Federation.Claims.{
  ClaimInput, candidates, is_candidate, older, claim_each, claimed,
}

-- A lease and a token's hash belong to a claim, a time of delivery to a delivery.
abbrev pub is_consistent : Message → Bool
is_consistent m = elim m.status [
  | MessageStatus.pending ↦
      not (is_some m.claimed_until)
      && not (is_some m.claim_token_hash)
      && not (is_some m.delivered_at)
  | MessageStatus.claimed ↦
      is_some m.claimed_until && is_some m.claim_token_hash && not (is_some m.delivered_at)
  | MessageStatus.delivered ↦
      not (is_some m.claimed_until) && not (is_some m.claim_token_hash) && is_some m.delivered_at
  | MessageStatus.expired ↦
      not (is_some m.claimed_until)
      && not (is_some m.claim_token_hash)
      && not (is_some m.delivered_at)
]

abbrev pub KeepsMessage : String × Message → Type 0
KeepsMessage e = (e.1.envelope.message_id ≡ e.0) × (is_consistent e.1 ≡ true)

abbrev pub KeepsGrant : String × Grant → Type 0
KeepsGrant e = (e.1.id ≡ e.0) × (e.1.used_count ≤ e.1.max_uses)

pub record IsConsistent (s : Store) : Type 0 where
  pub each : All KeepsMessage s.messages
  pub unique : (k : String) → count k s.messages ≤ 1
  pub granted : All KeepsGrant s.grants

expire_keeps :
    (test : Message → Bool) (e : String × Message)
    → KeepsMessage e
    → KeepsMessage (e.0, expire_if test e.1)
expire_keeps test e k = elim (Bool-cases (is_queued e.1 && test e.1)) [
  | inr h ↦ rw h k
  | inl h ↦ rw h (k.0, ground (arith, k.1))
]

pub expired_keep :
    (test : Message → Bool) (m : Map Message)
    → All KeepsMessage m
    → All KeepsMessage (update (expire_if test) m)
expired_keep test m a = All-update KeepsMessage (expire_if test) m (expire_keeps test) a

-- A candidate is consistent and waits, so that it was not delivered.
abbrev pub IsWaiting : Message → Type 0
IsWaiting m = is_some m.delivered_at ≡ false

consistent_values :
    (m : Map Message) → All KeepsMessage m → All (λ x. is_consistent x ≡ true) (values m)
consistent_values [] a = tt
consistent_values (e ∷ m) a = (a.0.1, consistent_values m a.1)

pub candidates-IsWaiting :
    (locale_lt : String → String → Bool) (s : Store) (i : ClaimInput)
    → All KeepsMessage s.messages
    → All IsWaiting (candidates locale_lt s i)
unfolding candidates
candidates-IsWaiting locale_lt s i a = All-take IsWaiting i.limit _ (
    All-sort_by IsWaiting (older locale_lt) (select (is_candidate i) (values s.messages)) (
      All-select_from IsWaiting (λ x. is_consistent x ≡ true) (is_candidate i) (values s.messages)
        (consistent_values s.messages a) (λ x c e. ground (arith, c, e))))

pub claim_each_keeps :
    (hash : String → String) (draw : Message → String) (i : ClaimInput) (some_output : Bool)
    (bytes : ℕ) (cs : List Message) (ms : Map Message)
    → All IsWaiting cs
    → All KeepsMessage ms
    → All KeepsMessage (claim_each hash draw i some_output bytes cs ms).1
unfolding claim_each
claim_each_keeps hash draw i some_output bytes [] ms w a = a
claim_each_keeps hash draw i some_output bytes (c ∷ cs) ms w a =
    elim (Bool-cases (some_output && ltb i.maximum_bytes (bytes + c.size_bytes))) [
      | inl h ↦ rw h a
      | inr h ↦ rw h (
          claim_each_keeps hash draw i true (bytes + c.size_bytes) cs _ w.1 (
            All-set KeepsMessage c.envelope.message_id (claimed hash draw i c) ms
              (refl, ground (arith, w.0)) a))
    ]

pub claim_each_unique :
    (hash : String → String) (draw : Message → String) (i : ClaimInput) (some_output : Bool)
    (bytes : ℕ) (cs : List Message) (ms : Map Message) (k : String)
    → count k ms ≤ 1
    → count k (claim_each hash draw i some_output bytes cs ms).1 ≤ 1
unfolding claim_each
claim_each_unique hash draw i some_output bytes [] ms k a = a
claim_each_unique hash draw i some_output bytes (c ∷ cs) ms k a =
    elim (Bool-cases (some_output && ltb i.maximum_bytes (bytes + c.size_bytes))) [
      | inl h ↦ rw h a
      | inr h ↦ rw h (
          claim_each_unique hash draw i true (bytes + c.size_bytes) cs _ k
            (count-set k c.envelope.message_id (claimed hash draw i c) ms a))
    ]
