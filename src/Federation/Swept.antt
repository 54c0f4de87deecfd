-- ===== src/Federation/Swept.antt =====
-- What the sweep leaves.
use otto_control.Prelude.{
  ℕ, ◌+◌, Bool, not, [], ◌∷◌, Map, String, values, update, select, length, total, one_if, All, ◌≡◌,
  refl, arith, leb, Bool-cases, inl, inr,
}
use otto_control.Federation.Records.{Message, Store}
use otto_control.Federation.Directory.{expire_if}
use otto_control.Federation.Sweep.{expire_messages, is_purged}
use otto_control.Federation.Barriers.{NoneQueued, expired_none}

values-select :
    (P : Message → Type 0) (p : String × Message → Bool) (ms : Map Message)
    → All P (values ms)
    → All P (values (select p ms))
values-select P p [] a = tt
values-select P p (e ∷ ms) a = elim (Bool-cases (p e)) [
  | inl h ↦ rw h (a.0, values-select P p ms a.1)
  | inr h ↦ rw h (values-select P p ms a.1)
]

length-select :
    (p : Message → Bool) (ms : Map Message)
    → length (values (select (λ e. not (p e.1)) ms)) + total (λ m. one_if (p m)) (values ms)
      ≡ length (values ms)
length-select p [] = omega arith
length-select p (e ∷ ms) = elim (Bool-cases (p e.1)) [
  | inl h ↦ rw h (omega (arith, length-select p ms))
  | inr h ↦ rw h (omega (arith, length-select p ms))
]

length-update :
    (f : Message → Message) (ms : Map Message) → length (values (update f ms)) ≡ length (values ms)
length-update f [] = refl
length-update f (e ∷ ms) = omega (arith, length-update f ms)

-- After a sweep no message that waits or is claimed has expired, and the messages that are left
-- and those reported as purged are as many as there were.
pub expire_messages_sweeps :
    (s : Store) (now before : ℕ)
    → NoneQueued (λ m. leb m.envelope.expires_at now) (expire_messages s now before).1
      × (length (values (expire_messages s now before).1.messages)
            + (expire_messages s now before).0.purged
          ≡ length (values s.messages))
unfolding expire_messages
expire_messages_sweeps s now before =
    let overdue : Message → Bool = λ m. leb m.envelope.expires_at now in
    let swept = update (expire_if overdue) s.messages in
    (
      values-select _ _ swept (expired_none overdue s.messages),
      omega (
        arith,
        length-select (is_purged before) swept,
        length-update (expire_if overdue) s.messages,
      ),
    )
