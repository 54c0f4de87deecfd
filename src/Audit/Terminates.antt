-- ===== src/Audit/Terminates.antt =====
-- The verification of a chain ends.
use otto_control.Prelude.{
  ℕ, zero, suc, ◌+◌, ◌≤◌, ◌<◌, true, false, Bool-cases, inl, inr, ◌⊎◌, some, is_some, List, [], ◌∷◌,
  ◌≡◌, refl, arith,
}
use otto_control.Audit.Canonical.{Runtime}
use otto_control.Audit.Chain.{Event, AuditStore}
use otto_control.Audit.Verify.{
  Progress, start, advance, is_next, check_batch, check_fetched, break_at_expected, fetched,
  goes_on, verify_loop, receipt, Receipt, verify,
}

check_batch_moves :
    (rt : Runtime) (p : Progress) (es : List Event)
    → p.expected_sequence ≤ (check_batch rt p es).expected_sequence
unfolding check_batch advance break_at_expected
check_batch_moves rt p [] = omega arith
check_batch_moves rt p (e ∷ es) = elim (Bool-cases (is_next rt p e)) [
  | inl h ↦ rw h (omega (arith, check_batch_moves rt (advance e p) es))
  | inr h ↦ rw h (omega arith)
]

-- A batch breaks the loop or brings it further.
check_fetched_moves :
    (rt : Runtime) (p : Progress) (es : List Event)
    → (is_some (check_fetched rt p es).broken_at ≡ true)
      ⊎ (p.expected_sequence < (check_fetched rt p es).expected_sequence)
unfolding check_fetched check_batch advance break_at_expected
check_fetched_moves rt p [] = inl refl
check_fetched_moves rt p (e ∷ es) = elim (Bool-cases (is_next rt p e)) [
  | inl h ↦ inr (rw h (omega (arith, check_batch_moves rt (advance e p) es)))
  | inr h ↦ inl (rw h refl)
]

within_chain :
    (s : AuditStore) (p : Progress) → goes_on s p ≡ true → p.expected_sequence ≤ s.last_sequence
unfolding goes_on
within_chain s p h = ground arith

pub broken_stops :
    (s : AuditStore) (p : Progress) → is_some p.broken_at ≡ true → goes_on s p ≡ false
unfolding goes_on
broken_stops s p h = ground arith

-- A loop that has ended keeps its variables, whatever fuel is left.
pub verify_loop_stops :
    (rt : Runtime) (s : AuditStore) (fuel : ℕ) (p : Progress)
    → goes_on s p ≡ false
    → verify_loop rt s fuel p ≡ some p
unfolding verify_loop
verify_loop_stops rt s zero p h = rw h refl
verify_loop_stops rt s (suc fuel) p h = rw h refl

pub verify_loop_ends :
    (rt : Runtime) (s : AuditStore) (fuel : ℕ) (p : Progress)
    → s.last_sequence < p.expected_sequence + fuel
    → (q : Progress) × (verify_loop rt s fuel p ≡ some q) × (goes_on s q ≡ false)
unfolding verify_loop
verify_loop_ends rt s zero p enough = elim (Bool-cases (goes_on s p)) [
  | inl h ↦ absurd (omega (arith, within_chain s p h))
  | inr h ↦ (p, rw h refl, h)
]
verify_loop_ends rt s (suc fuel) p enough = elim (Bool-cases (goes_on s p)) [
  | inl h ↦
      let q = check_fetched rt p (fetched s p) in
      elim (check_fetched_moves rt p (fetched s p)) [
        | inl broken ↦
            let stops = broken_stops s q broken in
            (q, rw h (verify_loop_stops rt s fuel q stops), stops)
        | inr further ↦
            let (r, there, done) = verify_loop_ends rt s fuel q (omega arith) in
            (r, rw h there, done)
      ]
  | inr h ↦ (p, rw h refl, h)
]

-- The verification of any store gives a receipt: its loop ends within one round for each
-- sequence number, whatever rows the table holds and whatever the hash function is.
pub verify_terminates : (rt : Runtime) (s : AuditStore) → (r : Receipt) × (verify rt s ≡ some r)
unfolding verify start
verify_terminates rt s =
    let (p, there, done) = verify_loop_ends rt s (suc s.last_sequence) start (omega arith) in
    (receipt s p, rw there refl)
