-- ===== src/Federation/Counted.antt =====
-- What the statistics of the queue say of a new message.
use otto_control.Prelude.{
  ℕ, ◌+◌, String, ◌===◌, false, none, [], ◌∷◌, Map, get, set, values, total, Bool-cases, inl, inr,
  ◌≡◌, arith,
}
use mathlib.Core.Path.{subst}
use otto_control.Errors.{ok}
use otto_control.Federation.Records.{Message, MessageStatus, Store}
use otto_control.Federation.Enqueue.{
  EnqueueInput, EnqueueResult, enqueue_message, message_from_envelope,
}
use otto_control.Federation.Capacity.{enqueue_message_new}
use otto_control.Federation.Sweep.{QueueStats, queue_stats, queue_bytes, part}

total-set_fresh :
    (f : Message → ℕ) (k : String) (v : Message) (ms : Map Message)
    → get k ms ≡ none
    → total f (values (set k v ms)) ≡ total f (values ms) + f v
total-set_fresh f k v [] fresh = omega arith
total-set_fresh f k v (e ∷ ms) fresh = elim (Bool-cases (e.0 === k)) [
  | inl h ↦ absurd (ground (arith, rw h at fresh))
  | inr h ↦ rw h (omega (arith, total-set_fresh f k v ms (rw h at fresh)))
]

-- The entries of the one statistics are those of the other, with so much more that is pending.
abbrev pub IsGrown : ℕ → QueueStats → QueueStats → Type 0
IsGrown n q p =
    (p.pending ≡ q.pending + n)
    × (p.claimed ≡ q.claimed)
    × (p.delivered ≡ q.delivered)
    × (p.expired ≡ q.expired)

-- A new message adds one to the pending messages and its size to their bytes, and leaves the other
-- entries of the statistics as they are.
pub enqueue_message_counted :
    (s : Store) (i : EnqueueInput) (r : EnqueueResult) (s' : Store)
    → enqueue_message s i ≡ (ok r, s')
    → r.duplicate ≡ false
    → IsGrown 1 (queue_stats s) (queue_stats s')
      × IsGrown i.size_bytes (queue_bytes s) (queue_bytes s')
unfolding queue_stats queue_bytes
enqueue_message_counted s i r s' e new =
    let (g, fresh, allowed, unused, is) = enqueue_message_new s i r s' e new in
    let added = λ (f : Message → ℕ).
      total-set_fresh f i.signed.envelope.message_id (message_from_envelope i) s.messages fresh in
    let one : Message → ℕ = λ m. 1 in
    let size : Message → ℕ = λ m. m.size_bytes in
    subst
      (λ (t : Store).
        IsGrown 1 (queue_stats s) (queue_stats t)
        × IsGrown i.size_bytes (queue_bytes s) (queue_bytes t))
      is
      (
        (
          added (part one MessageStatus.pending),
          omega (arith, added (part one MessageStatus.claimed)),
          omega (arith, added (part one MessageStatus.delivered)),
          omega (arith, added (part one MessageStatus.expired)),
        ),
        (
          added (part size MessageStatus.pending),
          omega (arith, added (part size MessageStatus.claimed)),
          omega (arith, added (part size MessageStatus.delivered)),
          omega (arith, added (part size MessageStatus.expired)),
        ),
      )
