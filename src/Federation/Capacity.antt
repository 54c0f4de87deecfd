-- ===== src/Federation/Capacity.antt =====
-- The inboxes' limits: what `enqueueMessage` guarantees of the recipient's queue.
use otto_control.Prelude.{
  ℕ, ◌+◌, ◌≤◌, String, ◌===◌, Bool, true, false, none, some, Option, List, [], ◌∷◌, Map, get, set,
  has, values, length, total, select, Option-cases, Bool-cases, inl, inr, ◌≡◌, refl, arith,
}
use mathlib.Core.Path.{subst, ap}
use otto_control.Errors.{ok, >>=-eq-ok, ok_inj, Result-cases}
use otto_control.Federation.Records.{Message, Store, Deployment, Grant}
use otto_control.Federation.Limits.{live_nonces}
use otto_control.Federation.Enqueue.{
  EnqueueInput, EnqueueResult, enqueue_message, accept, authorize, check_capacity, has_room, inbox,
  is_inbox, message_from_envelope, nonce_key, is_duplicate_of, stored,
}

-- A new key adds its value at the end.
total-values-set :
    (f : Message → ℕ) (p : Message → Bool) (k : String) (v : Message) (ms : Map Message)
    → get k ms ≡ none
    → total f (select p (values (set k v ms))) ≤ total f (select p (values ms)) + f v
total-values-set f p k v [] fresh = elim (Bool-cases (p v)) [
  | inl h ↦ rw h (omega arith)
  | inr h ↦ rw h (omega arith)
]
total-values-set f p k v (e ∷ ms) fresh = elim (Bool-cases (e.0 === k)) [
  | inl h ↦ absurd (ground (arith, rw h at fresh))
  | inr h ↦
      let rest = total-values-set f p k v ms (rw h at fresh) in
      elim (Bool-cases (p e.1)) [ inl q ↦ rw (h, q) (omega (arith, rest)) | inr q ↦ rw (h, q) rest ]
]

length-total : (xs : List Message) → length xs ≡ total (λ m. 1) xs
length-total [] = refl
length-total (x ∷ xs) = omega (arith, length-total xs)

-- What a new message leaves: the store as `accept` writes it, after a check of the room.
pub enqueue_message_new :
    (s : Store) (i : EnqueueInput) (r : EnqueueResult) (s' : Store)
    → enqueue_message s i ≡ (ok r, s')
    → r.duplicate ≡ false
    → (g : Option Grant) × (get i.signed.envelope.message_id s.messages ≡ none)
      × (authorize s i ≡ ok g)
      × (has (nonce_key i.signed.envelope) (live_nonces i.now s.nonces) ≡ false)
      × (stored s i g ≡ s')
unfolding enqueue_message accept
enqueue_message_new s i r s' e new =
    elim (Option-cases (get i.signed.envelope.message_id s.messages)) [
      | inr (m, there) ↦ elim (Bool-cases (is_duplicate_of i m)) [
        | inl h ↦
            let is = rw (there, enqueue_message, h) at e in
            let same = ok_inj (ap (λ x. x.0) is) in absurd (ground (arith, new, same))
        | inr h ↦ absurd (ground (arith, ap (λ x. x.0) (rw (there, enqueue_message, h) at e)))
      ]
      | inl fresh ↦ elim (Result-cases (authorize s i)) [
        | inr (f, h) ↦ absurd (ground (arith, ap (λ x. x.0) (rw (fresh, enqueue_message, h) at e)))
        | inl (g, h) ↦
            elim (Bool-cases (has (nonce_key i.signed.envelope) (live_nonces i.now s.nonces))) [
              | inl u ↦
                  absurd (ground (arith, ap (λ x. x.0) (rw (fresh, enqueue_message, h, u) at e)))
              | inr u ↦ (g, fresh, h, u, ap (λ x. x.1) (rw (fresh, enqueue_message, h, u) at e))
            ]
      ]
    ]

check_capacity_room :
    (s : Store) (i : EnqueueInput) (d : Deployment)
    → check_capacity s i ≡ ok tt
    → get i.signed.envelope.recipient_deployment_id s.deployments ≡ some d
    → has_room d (inbox s i.signed.envelope.recipient_deployment_id) i.size_bytes ≡ true
unfolding check_capacity
check_capacity_room s i d e there =
    elim (Bool-cases
      (has_room d (inbox s i.signed.envelope.recipient_deployment_id) i.size_bytes)) [
        | inl h ↦ h
        | inr h ↦ absurd (ground (arith, rw (there, check_capacity, h) at e))
      ]

-- A new message leaves its recipient's queue within the recipient's limits, both in messages and in
-- bytes.
pub enqueue_message_capacity :
    (s : Store) (i : EnqueueInput) (r : EnqueueResult) (s' : Store) (d : Deployment)
    → enqueue_message s i ≡ (ok r, s')
    → r.duplicate ≡ false
    → get i.signed.envelope.recipient_deployment_id s.deployments ≡ some d
    → (length (inbox s' i.signed.envelope.recipient_deployment_id) ≤ d.max_pending_messages)
      × (total (λ m. m.size_bytes) (inbox s' i.signed.envelope.recipient_deployment_id)
          ≤ d.max_pending_bytes)
unfolding authorize inbox
enqueue_message_capacity s i r s' d e new there =
    let to = i.signed.envelope.recipient_deployment_id in
    let (g, fresh, allowed, unused, is) = enqueue_message_new s i r s' e new in
    let (x, p, q) = >>=-eq-ok (check_capacity s i) _ allowed in
    let room = check_capacity_room s i d p there in
    let add : (f : Message → ℕ)
        → total f (inbox (stored s i g) to) ≤ total f (inbox s to) + f (message_from_envelope i) =
      λ f.
        total-values-set f (is_inbox to) i.signed.envelope.message_id (message_from_envelope i)
          s.messages fresh in
    subst
      (λ (t : Store).
        (length (inbox t to) ≤ d.max_pending_messages)
        × (total (λ m. m.size_bytes) (inbox t to) ≤ d.max_pending_bytes))
      is
      (
        ground (
          arith,
          room,
          add (λ m. 1),
          length-total (inbox s to),
          length-total (inbox (stored s i g) to),
        ),
        ground (arith, room, add (λ m. m.size_bytes)),
      )
