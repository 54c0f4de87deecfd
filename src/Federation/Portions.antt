-- ===== src/Federation/Portions.antt =====
-- How much `claimMessages` hands out at a time.
use otto_control.Prelude.{
  ℕ, ◌+◌, ◌≤◌, String, Bool, true, false, ◌&&◌, List, [], ◌∷◌, Map, set, total, length, length-take,
  ltb, Bool-cases, inl, inr, ◌≡◌, ◌⊎◌, arith, sort_by, select, values,
}
use otto_control.Federation.Records.{Message, Store}
use otto_control.Federation.Claims.{
  Claim, ClaimInput, claim_messages, claim_each, claimed, candidates, older, is_candidate,
}
use otto_control.Federation.Handover.{claim_each_bytes}

length-candidates :
    (locale_lt : String → String → Bool) (s : Store) (i : ClaimInput)
    → length (candidates locale_lt s i) ≤ i.limit
unfolding candidates
length-candidates locale_lt s i =
    length-take i.limit (sort_by (older locale_lt) (select (is_candidate i) (values s.messages)))

module _ (hash : String → String) (draw : Message → String) where
  length-claim_each :
      (i : ClaimInput) (some_output : Bool) (bytes : ℕ) (cs : List Message) (ms : Map Message)
      → length (claim_each hash draw i some_output bytes cs ms).0 ≤ length cs
  unfolding claim_each
  length-claim_each i some_output bytes [] ms = omega arith
  length-claim_each i some_output bytes (c ∷ cs) ms =
      let rest =
        length-claim_each i true (bytes + c.size_bytes) cs
          (set c.envelope.message_id (claimed hash draw i c) ms) in
      elim (Bool-cases (some_output && ltb i.maximum_bytes (bytes + c.size_bytes))) [
        | inl h ↦ rw (h, claim_each) (omega arith)
        | inr h ↦ rw (h, claim_each) (omega (arith, rest))
      ]

  abbrev pub size_of : List Claim → ℕ
  size_of xs = total (λ x. x.message.size_bytes) xs

  -- A first message alone, or messages within the byte budget.
  claim_each_fits :
      (i : ClaimInput) (cs : List Message) (ms : Map Message)
      → (size_of (claim_each hash draw i false 0 cs ms).0 ≤ i.maximum_bytes)
        ⊎ (length (claim_each hash draw i false 0 cs ms).0 ≤ 1)
  unfolding claim_each
  claim_each_fits i [] ms = inl (omega arith)
  claim_each_fits i (c ∷ []) ms = inr (omega arith)
  claim_each_fits i (c ∷ c1 ∷ cs) ms = elim (Bool-cases (ltb i.maximum_bytes (0 + c.size_bytes))) [
    | inr h ↦
        let rest =
          claim_each_bytes hash draw i (0 + c.size_bytes) (c1 ∷ cs)
            (set c.envelope.message_id (claimed hash draw i c) ms) (ground (arith, h)) in
        inl (omega (arith, rest))
    | inl h ↦
        let over : ltb i.maximum_bytes (0 + c.size_bytes + c1.size_bytes) ≡ true =
          ground (arith, h) in
        inr (rw (over, claim_each) (omega arith))
  ]

  -- A claim hands out no more messages than the limit, and no more bytes than the budget unless it
  -- hands out a single message.
  pub claim_portion :
      (locale_lt : String → String → Bool) (s : Store) (i : ClaimInput)
      → (length (claim_messages hash draw locale_lt s i).0 ≤ i.limit)
        × ((size_of (claim_messages hash draw locale_lt s i).0 ≤ i.maximum_bytes)
            ⊎ (length (claim_messages hash draw locale_lt s i).0 ≤ 1))
  unfolding claim_messages
  claim_portion locale_lt s i =
      let cs = candidates locale_lt s i in
      (
        omega (arith, length-claim_each i false 0 cs s.messages, length-candidates locale_lt s i),
        claim_each_fits i cs s.messages,
      )
