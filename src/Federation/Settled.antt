-- ===== src/Federation/Settled.antt =====
-- An acknowledgement is final.
use otto_control.Prelude.{
  ℕ, String, ◌===◌, true, false, some, get, set, get-set, Option-cases, Bool-cases, inl, inr, ◌≡◌,
  refl, arith,
}
use mathlib.Core.Path.{subst, sym}
use otto_control.Federation.Records.{Message, Store}
use otto_control.Federation.Claims.{AckInput, acknowledge_message, delivered, is_leased}

module _ (hash : String → String) (draw : Message → String) where
  refused :
      (s : Store) (j : AckInput) (m : Message)
      → get j.message_id s.messages ≡ some m
      → is_leased hash draw j m ≡ false
      → acknowledge_message hash draw s j ≡ (false, s)
  unfolding acknowledge_message
  refused s j m there free = rw (there, acknowledge_message, free) refl

  not_leased :
      (m : Message) (now : ℕ) (j : AckInput)
      → is_leased hash draw j (delivered hash draw now m) ≡ false
  not_leased m now j =
      elim (Bool-cases (m.envelope.recipient_deployment_id === j.recipient_deployment_id)) [
        | inl r ↦ rw r refl
        | inr r ↦ rw r refl
      ]

  -- Once a message is acknowledged, no further acknowledgement of it succeeds or changes anything.
  pub acknowledge_once :
      (s : Store) (i j : AckInput)
      → (acknowledge_message hash draw s i).0 ≡ true
      → j.message_id ≡ i.message_id
      → acknowledge_message hash draw (acknowledge_message hash draw s i).1 j
        ≡ (false, (acknowledge_message hash draw s i).1)
  unfolding acknowledge_message
  acknowledge_once s i j done same = elim (Option-cases (get i.message_id s.messages)) [
    | inl n ↦ absurd (ground (arith, rw (n, acknowledge_message) at done))
    | inr (m, n) ↦ elim (Bool-cases (is_leased hash draw i m)) [
      | inr h ↦ absurd (ground (arith, rw (n, acknowledge_message, h) at done))
      | inl h ↦
          let m1 : Message = delivered hash draw i.now m in
          let after : Store = record s { messages = set i.message_id m1 s.messages } in
          let is : (acknowledge_message hash draw s i).1 ≡ after =
            rw (n, acknowledge_message, h) refl in
          rw is (
            refused after j m1
              (subst (λ k. get k after.messages ≡ some m1) (sym same)
                (get-set i.message_id m1 s.messages))
              (not_leased m i.now j))
    ]
  ]
