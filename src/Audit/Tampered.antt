-- ===== src/Audit/Tampered.antt =====
-- Two chains with the same head.
use otto_control.Prelude.{
  ℕ, suc, String, ◌===◌, ===_eq, true, false, Bool-cases, inl, inr, ◌⊎◌, some, List, [], ◌∷◌, ◌≡◌,
  refl, sym, ap, ◌∙◌, arith,
}
use otto_control.Audit.Canonical.{Runtime, canonical_json}
use otto_control.Audit.Chain.{
  Event, Content, AuditStore, audit_event_hash, hash_payload, genesis_hash,
}
use otto_control.Audit.Verify.{Receipt, verify}
use otto_control.Audit.Linked.{Linked, IsVerified, verify_valid-IsVerified, length-Linked}

-- The text that the hash of an event is taken of.
abbrev pub hashed_text : Runtime → ℕ → String → Content → String
hashed_text rt n h c = canonical_json rt (hash_payload rt n h c)

abbrev pub texts : Runtime → ℕ → String → List Event → List String
texts rt n h [] = []
texts rt n h (e ∷ es) =
    hashed_text rt n h e.content ∷ texts rt (suc n) (audit_event_hash rt n h e.content) es

-- Two texts with one hash.
pub record Collision (rt : Runtime) : Type 0 where
  pub one : String
  pub other : String
  pub differ : (one === other) ≡ false
  pub collide : rt.sha256 one ≡ rt.sha256 other

-- `previous` reads the field previousHash out of a text, as JSON.parse does.
module _ (rt : Runtime) (previous : String → String)
    (recovers : (n : ℕ) (h : String) (c : Content) → previous (hashed_text rt n h c) ≡ h) where
  -- Chains that end in the same hash have begun with the same, or two texts collide.
  same_texts :
      (xs ys : List Event) (n m : ℕ) (h k g : String)
      → Linked rt n h xs m g
      → Linked rt n k ys m g
      → ((h ≡ k) × (texts rt n h xs ≡ texts rt n k ys)) ⊎ Collision rt
  unfolding audit_event_hash
  same_texts [] [] n m h k g a b = inl (a.1 ∙ sym b.1, refl)
  same_texts [] (y ∷ ys) n m h k g a b =
      absurd (omega (arith, length-Linked rt (y ∷ ys) n m k g b, a.0))
  same_texts (x ∷ xs) [] n m h k g a b =
      absurd (omega (arith, length-Linked rt (x ∷ xs) n m h g a, b.0))
  same_texts (x ∷ xs) (y ∷ ys) n m h k g a b =
      let one = hashed_text rt n h x.content in
      let other = hashed_text rt n k y.content in
      elim (same_texts xs ys (suc n) m (rt.sha256 one) (rt.sha256 other) g a.1 b.1) [
        | inl (collide, later) ↦ elim (Bool-cases (one === other)) [
          | inl h1 ↦
              let same = ===_eq one other h1 in
              inl (
                sym (recovers n h x.content) ∙ ap previous same ∙ recovers n k y.content,
                λ i. same i ∷ later i,
              )
          | inr differ ↦
              inr (record { one = one; other = other; differ = differ; collide = collide })
        ]
        | inr c ↦ inr c
      ]

  -- The same for verified stores: with the same last sequence number and the same head, two stores
  -- whose receipts are valid hold chains of events with the same texts, unless two texts have one
  -- hash.
  pub tampering_collides :
      (s t : AuditStore) {q r : Receipt}
      → verify rt s ≡ some q
      → q.valid ≡ true
      → verify rt t ≡ some r
      → r.valid ≡ true
      → s.last_sequence ≡ t.last_sequence
      → s.head_hash ≡ t.head_hash
      → ((v : IsVerified rt s) × (w : IsVerified rt t) × (texts rt 1 genesis_hash v.events
            ≡ texts rt 1 genesis_hash w.events))
        ⊎ Collision rt
  tampering_collides s t sq sv tq tv last head =
      let v = verify_valid-IsVerified rt s sq sv in
      let w = verify_valid-IsVerified rt t tq tv in
      let linked : Linked rt 1 genesis_hash w.events (suc s.last_sequence) s.head_hash =
        rw (last, head) w.linked in
      elim (same_texts v.events w.events 1 (suc s.last_sequence) genesis_hash genesis_hash
        s.head_hash v.linked linked) [ inl (same, found) ↦ inl (v, w, found) | inr c ↦ inr c ]
