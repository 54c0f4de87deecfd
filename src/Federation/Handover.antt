-- ===== src/Federation/Handover.antt =====
-- From claim to delivery: what `claimMessages` hands out and what `acknowledgeMessage` takes back.
use otto_control.Prelude.{
  ℕ, ◌+◌, ◌≤◌, ◌<◌, String, ◌===◌, ===_refl, Bool, true, false, ◌&&◌, some, List, [], ◌∷◌, Map, get,
  set, count, All, total, select, sort_by, values, get-set, get-set_other, one_if, ltb, Bool-cases,
  inl, inr, ◌≡◌, refl, arith, total-select, total-sort_by, total-take, lt→ltb, All-take,
  All-sort_by, All-select_sound, All-map,
}
use mathlib.Core.Path.{◌∙◌}
use otto_control.Federation.Records.{Message, Store}
use otto_control.Federation.Claims.{
  Claim, ClaimInput, claim_messages, claim_each, claimed, AckInput, acknowledge_message, is_leased,
  candidates, is_candidate, older,
}
use otto_control.Federation.Lifecycle.{IsConsistent, KeepsMessage}

abbrev pub copies : String → List Message → ℕ
copies id ms = total (λ m. one_if (m.envelope.message_id === id)) ms

copies-values :
    (id : String) (ms : Map Message) → All KeepsMessage ms → copies id (values ms) ≡ count id ms
copies-values id [] a = refl
copies-values id (e ∷ ms) a = rw (a.0.0, copies-values id ms a.1) refl

candidates_distinct :
    (locale_lt : String → String → Bool) (s : Store) (i : ClaimInput) (id : String)
    → IsConsistent s
    → copies id (candidates locale_lt s i) ≤ 1
unfolding candidates
candidates_distinct locale_lt s i id c =
    let f : Message → ℕ = λ m. one_if (m.envelope.message_id === id) in
    let chosen = select (is_candidate i) (values s.messages) in
    omega (
      arith,
      total-take f i.limit (sort_by (older locale_lt) chosen),
      total-sort_by f (older locale_lt) chosen,
      total-select f (is_candidate i) (values s.messages),
      copies-values id s.messages c.each,
      c.unique id,
    )

module _ (hash : String → String) (draw : Message → String) where
  -- The loop leaves alone what is not among its candidates.
  claim_each_other :
      (i : ClaimInput) (some_output : Bool) (bytes : ℕ) (cs : List Message) (ms : Map Message)
      (id : String)
      → copies id cs ≡ 0
      → get id (claim_each hash draw i some_output bytes cs ms).1 ≡ get id ms
  unfolding claim_each
  claim_each_other i some_output bytes [] ms id none_left = refl
  claim_each_other i some_output bytes (c ∷ cs) ms id none_left =
      elim (Bool-cases (some_output && ltb i.maximum_bytes (bytes + c.size_bytes))) [
        | inl h ↦ rw (h, claim_each) refl
        | inr h ↦ elim (Bool-cases (c.envelope.message_id === id)) [
          | inl same ↦ absurd (omega (arith, rw same at none_left))
          | inr other ↦
              rw (h, claim_each)
                (claim_each_other i true (bytes + c.size_bytes) cs _ id
                    (omega (arith, rw other at none_left))
                  ∙ get-set_other id c.envelope.message_id (claimed hash draw i c) ms other)
        ]
      ]

  -- What is stored of a message that was handed out.
  abbrev pub IsHanded : ClaimInput → Map Message → Claim → Type 0
  IsHanded i ms x =
      (m : Message) × (is_candidate i m ≡ true)
      × (x.message ≡ claimed hash draw i m)
      × (x.claim_token ≡ draw m)
      × (get m.envelope.message_id ms ≡ some x.message)

  claim_each-IsHanded :
      (i : ClaimInput) (some_output : Bool) (bytes : ℕ) (cs : List Message) (ms : Map Message)
      → ((id : String) → copies id cs ≤ 1)
      → All (λ m. is_candidate i m ≡ true) cs
      → All
          (IsHanded i (claim_each hash draw i some_output bytes cs ms).1)
          (claim_each hash draw i some_output bytes cs ms).0
  unfolding claim_each
  claim_each-IsHanded i some_output bytes [] ms distinct fit = tt
  claim_each-IsHanded i some_output bytes (c ∷ cs) ms distinct fit =
      elim (Bool-cases (some_output && ltb i.maximum_bytes (bytes + c.size_bytes))) [
        | inl h ↦ rw (h, claim_each) tt
        | inr h ↦
            let id = c.envelope.message_id in
            let few : copies id (c ∷ cs) ≤ 1 = distinct id in
            let once : copies id cs ≡ 0 = omega (arith, rw (===_refl id) at few) in
            let after = set id (claimed hash draw i c) ms in
            let stored =
              claim_each_other i true (bytes + c.size_bytes) cs after id once
              ∙ get-set id (claimed hash draw i c) ms in
            rw (h, claim_each)
              (
                (c, fit.0, refl, refl, stored),
                claim_each-IsHanded i true (bytes + c.size_bytes) cs after
                    (λ k. omega (arith, distinct k)) fit.1,
              )
      ]

  candidates_fit :
      (locale_lt : String → String → Bool) (s : Store) (i : ClaimInput)
      → All (λ m. is_candidate i m ≡ true) (candidates locale_lt s i)
  unfolding candidates
  candidates_fit locale_lt s i =
      let P : Message → Type 0 = λ m. is_candidate i m ≡ true in
      All-take P i.limit _ (
        All-sort_by P (older locale_lt) _
          (All-select_sound P (is_candidate i) (values s.messages) (λ x e. e)))

  abbrev pub ack_of : ClaimInput → ℕ → Claim → AckInput
  ack_of i now x = record {
    recipient_deployment_id = i.recipient_deployment_id;
    message_id = x.message.envelope.message_id;
    claim_token = x.claim_token;
    now = now;
  }

  handed_acknowledged :
      (s : Store) (i : ClaimInput) (now : ℕ) (x : Claim)
      → now < i.now + i.claim_ttl_ms
      → IsHanded i s.messages x
      → (acknowledge_message hash draw s (ack_of i now x)).0 ≡ true
  unfolding acknowledge_message
  handed_acknowledged s i now x before (m, fit, is, token, there) =
      let there1 : get x.message.envelope.message_id s.messages ≡ some x.message =
        rw is (rw is at there) in
      let leased : is_leased hash draw (ack_of i now x) x.message ≡ true =
        rw (is, token) (leased_claim m fit) in
      rw (there1, acknowledge_message, leased) refl
    where
      leased_claim :
          (m : Message)
          → is_candidate i m ≡ true
          → is_leased hash draw
              (record {
                recipient_deployment_id = i.recipient_deployment_id;
                message_id = m.envelope.message_id;
                claim_token = draw m;
                now = now;
              })
              (claimed hash draw i m)
            ≡ true
      leased_claim m fit =
          rw (lt→ltb now (i.now + i.claim_ttl_ms) before, ===_refl (hash (draw m)))
            (ground (arith, fit))

  pub claim_each_bytes :
      (i : ClaimInput) (bytes : ℕ) (cs : List Message) (ms : Map Message)
      → bytes ≤ i.maximum_bytes
      → bytes + total (λ x. x.message.size_bytes) (claim_each hash draw i true bytes cs ms).0
        ≤ i.maximum_bytes
  unfolding claim_each
  claim_each_bytes i bytes [] ms within = omega (arith, within)
  claim_each_bytes i bytes (c ∷ cs) ms within =
      elim (Bool-cases (ltb i.maximum_bytes (bytes + c.size_bytes))) [
        | inl h ↦ rw (h, claim_each) (omega (arith, within))
        | inr h ↦
            let rest =
              claim_each_bytes i (bytes + c.size_bytes) cs
                (set c.envelope.message_id (claimed hash draw i c) ms) (ground (arith, h)) in
            rw (h, claim_each) (omega (arith, rest))
      ]

  -- A message that `claimMessages` hands out is acknowledged by its recipient with the token that
  -- came with it, at any time before its lease ends.
  pub acknowledge_message-claim_messages :
      (locale_lt : String → String → Bool) (s : Store) (i : ClaimInput) (now : ℕ)
      → IsConsistent s
      → now < i.now + i.claim_ttl_ms
      → All
          (λ x.
            (acknowledge_message hash draw
              (claim_messages hash draw locale_lt s i).1
              (ack_of i now x)).0
            ≡ true)
          (claim_messages hash draw locale_lt s i).0
  unfolding claim_messages
  acknowledge_message-claim_messages locale_lt s i now c before =
      let cs = candidates locale_lt s i in
      All-map (λ x h. handed_acknowledged _ i now x before h)
        (claim_each hash draw i false 0 cs s.messages).0
        (claim_each-IsHanded i false 0 cs s.messages (λ id. candidates_distinct locale_lt s i id c)
          (candidates_fit locale_lt s i))
