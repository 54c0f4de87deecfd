-- ===== src/Federation/Replay.antt =====
-- A nonce serves once: `consumeNonce` and `enqueueMessage` share the map of nonces.
use otto_control.Prelude.{
  ℕ, ◌<◌, String, Bool, true, false, has, get-set, Bool-cases, inl, inr, ◌≡◌, refl, arith,
}
use mathlib.Core.Path.{subst}
use otto_control.Errors.{ok}
use otto_control.Federation.Records.{Message, Store}
use otto_control.Federation.Directory.{pair_key}
use otto_control.Federation.Limits.{consume_nonce, live_nonces}
use otto_control.Federation.Enqueue.{EnqueueInput, EnqueueResult, enqueue_message, nonce_key}
use otto_control.Federation.Capacity.{enqueue_message_new}
use otto_control.Federation.Nonces.{IsTaken, live-IsTaken, has-IsTaken}
use otto_control.Federation.Remembered.{Later, Later-IsTaken}

consume_nonce_takes :
    (s : Store) (d nonce : String) (expires_at now : ℕ)
    → (consume_nonce s d nonce expires_at now).0 ≡ true
    → IsTaken (pair_key d nonce) expires_at (consume_nonce s d nonce expires_at now).1.nonces
unfolding consume_nonce
consume_nonce_takes s d nonce expires_at now done =
    elim (Bool-cases (has (pair_key d nonce) (live_nonces now s.nonces))) [
      | inl h ↦ absurd (ground (arith, rw (h, consume_nonce) at done))
      | inr h ↦
          rw (h, consume_nonce)
            (
              expires_at,
              omega arith,
              get-set (pair_key d nonce) expires_at (live_nonces now s.nonces),
            )
    ]

consume_nonce_refused :
    (s : Store) (d nonce : String) (until expires_at now : ℕ)
    → now < until
    → IsTaken (pair_key d nonce) until s.nonces
    → (consume_nonce s d nonce expires_at now).0 ≡ false
unfolding consume_nonce
consume_nonce_refused s d nonce until expires_at now early t =
    let live = live-IsTaken (pair_key d nonce) until now s.nonces early t in
    rw (has-IsTaken (pair_key d nonce) until (live_nonces now s.nonces) live) refl

module _ (hash : String → String) (draw : Message → String)
    (locale_lt : String → String → Bool) where
  -- A nonce that a signed request has consumed is refused to every further request of the
  -- deployment until it expires, whatever calls of the relay run in between, those that purge
  -- nonces before that instant.
  pub consume_nonce_once :
      (s s' : Store) (d nonce : String) (expires_at expires_at' now now' : ℕ)
      → (consume_nonce s d nonce expires_at now).0 ≡ true
      → Later hash draw locale_lt expires_at (consume_nonce s d nonce expires_at now).1 s'
      → now' < expires_at
      → (consume_nonce s' d nonce expires_at' now').0 ≡ false
  consume_nonce_once s s' d nonce expires_at expires_at' now now' done later before =
      let key = pair_key d nonce in
      let taken =
        Later-IsTaken hash draw locale_lt key expires_at later
          (consume_nonce_takes s d nonce expires_at now done) in
      consume_nonce_refused s' d nonce expires_at expires_at' now' before taken

  -- Once an envelope was enqueued, its sender enqueues no other message under its nonce until the
  -- envelope expires, whatever calls of the relay run in between, those that purge nonces before
  -- that instant: a call that succeeds is a duplicate of a stored message.
  pub enqueue_message_once :
      (s s1 s' s'' : Store) (i j : EnqueueInput) (r r' : EnqueueResult)
      → enqueue_message s i ≡ (ok r, s1)
      → r.duplicate ≡ false
      → Later hash draw locale_lt i.signed.envelope.expires_at s1 s'
      → nonce_key j.signed.envelope ≡ nonce_key i.signed.envelope
      → j.now < i.signed.envelope.expires_at
      → enqueue_message s' j ≡ (ok r', s'')
      → r'.duplicate ≡ true
  enqueue_message_once s s1 s' s'' i j r r' e new later same before e' =
      elim (Bool-cases r'.duplicate) [
        | inl h ↦ h
        | inr h ↦
            let (g, fresh, allowed, unused, is) = enqueue_message_new s i r s1 e new in
            let (g', fresh', allowed', unused', is') = enqueue_message_new s' j r' s'' e' h in
            let k = nonce_key i.signed.envelope in
            let until = i.signed.envelope.expires_at in
            let set_there : IsTaken k until s1.nonces =
              subst (λ (t : Store). IsTaken k until t.nonces) is
                (until, omega arith, get-set k until (live_nonces i.now s.nonces)) in
            let taken = Later-IsTaken hash draw locale_lt k until later set_there in
            let live = live-IsTaken k until j.now s'.nonces before taken in
            absurd (
              ground
                (arith, has-IsTaken k until (live_nonces j.now s'.nonces) live, rw same at unused'))
      ]
