-- ===== src/Federation/Queued.antt =====
-- The operations on the queue of the relay keep the store consistent.
use otto_control.Prelude.{
  ℕ, ◌+◌, String, ◌===◌, Bool, false, not, none, some, Option, get, update, All, All-set, All-get,
  All-select, count-set, count-update, total-select, Option-cases, Bool-cases, inl, inr, ◌≡◌, refl,
  arith, has, one_if, leb,
}
use mathlib.Core.Path.{subst}
use otto_control.Errors.{ok, >>=-eq-ok, ok_inj, Result-cases}
use otto_control.Federation.Records.{Message, Grant, Store, MessageType}
use otto_control.Federation.Directory.{expire_if}
use otto_control.Federation.Limits.{live_nonces}
use otto_control.Federation.Enqueue.{
  EnqueueInput, enqueue_message, accept, authorize, used_grant, grant_admits, charge_grant,
  message_from_envelope, get_opt, is_duplicate_of, nonce_key, is_type, check_capacity,
  check_response, check_receipt,
}
use otto_control.Federation.Claims.{
  ClaimInput, claim_messages, AckInput, acknowledge_message, delivered, is_leased, candidates,
}
use otto_control.Federation.Sweep.{expire_messages, is_purged}
use otto_control.Federation.Lifecycle.{
  IsConsistent, KeepsMessage, KeepsGrant, expired_keep, candidates-IsWaiting, claim_each_keeps,
  claim_each_unique,
}
use otto_control.Federation.Kept.{same-IsConsistent}

-- The grant that a request uses has a use left.
used_grant-IsConsistent :
    (s : Store) (i : EnqueueInput) (g : Grant)
    → IsConsistent s
    → used_grant s i ≡ ok (some g)
    → KeepsGrant (g.id, record g { used_count = g.used_count + 1 })
unfolding used_grant
used_grant-IsConsistent s i g c e =
    elim (Bool-cases (is_type i.signed.envelope.kind MessageType.a2a_request)) [
      | inr h ↦ absurd (ground (arith, rw h at e))
      | inl h ↦ elim (Option-cases (get_opt i.signed.envelope.routing.a2a_grant_id s.grants)) [
        | inl n ↦ absurd (ground (arith, rw (h, n) at e))
        | inr (g1, n) ↦ elim (Bool-cases (grant_admits i.signed.envelope i.now g1)) [
          | inr bad ↦ absurd (ground (arith, rw (h, n, bad) at e))
          | inl good ↦
              let same : g1 ≡ g = cc (rw (h, n, good) at e) in
              subst (λ (x : Grant). KeepsGrant (x.id, record x { used_count = x.used_count + 1 }))
                same (refl, ground (arith, good))
        ]
      ]
    ]

pub authorize_used :
    (s : Store) (i : EnqueueInput) (g : Option Grant) → authorize s i ≡ ok g → used_grant s i ≡ ok g
unfolding authorize
authorize_used s i g e =
    let (x, p, q) = >>=-eq-ok (check_capacity s i) _ e in
    let (g1, p1, q1) = >>=-eq-ok (used_grant s i) _ q in
    let (y, p2, q2) = >>=-eq-ok (check_response s i.signed.envelope) _ q1 in
    let (z, p3, q3) = >>=-eq-ok (check_receipt s i.signed.envelope) _ q2 in
    subst (λ x. used_grant s i ≡ ok x) (ok_inj q3) p1

charge_grant_keeps :
    (s : Store) (i : EnqueueInput) (g : Option Grant)
    → IsConsistent s
    → used_grant s i ≡ ok g
    → All KeepsGrant (charge_grant g s.grants)
charge_grant_keeps s i none c e = c.granted
charge_grant_keeps s i (some g) c e =
    All-set KeepsGrant g.id _ s.grants (used_grant-IsConsistent s i g c e) c.granted

pub enqueue_message-IsConsistent :
    (s : Store) (i : EnqueueInput) → IsConsistent s → IsConsistent (enqueue_message s i).1
unfolding enqueue_message accept
enqueue_message-IsConsistent s i c =
    elim (Option-cases (get i.signed.envelope.message_id s.messages)) [
      | inr (m, e) ↦
          rw (e, enqueue_message)
            (elim (Bool-cases (is_duplicate_of i m)) [ inl h ↦ rw h c | inr h ↦ rw h c ])
      | inl e ↦
          rw (e, enqueue_message)
            (elim (Result-cases (authorize s i)) [
              | inr (f, h) ↦ rw h c
              | inl (g, h) ↦
                  rw h
                    (elim (Bool-cases
                      (has (nonce_key i.signed.envelope) (live_nonces i.now s.nonces))) [
                        | inl u ↦ rw u (same-IsConsistent s _ c refl refl)
                        | inr u ↦ rw u (record {
                          each =
                              All-set KeepsMessage i.signed.envelope.message_id
                                (message_from_envelope i) s.messages (refl, refl) c.each;
                          unique = λ k.
                              count-set k i.signed.envelope.message_id _ s.messages (c.unique k);
                          granted = charge_grant_keeps s i g c (authorize_used s i g h);
                        })
                      ])
            ])
    ]

pub claim_messages-IsConsistent :
    (hash : String → String) (draw : Message → String) (locale_lt : String → String → Bool)
    (s : Store) (i : ClaimInput)
    → IsConsistent s
    → IsConsistent (claim_messages hash draw locale_lt s i).1
unfolding claim_messages
claim_messages-IsConsistent hash draw locale_lt s i c = record {
  each =
      claim_each_keeps hash draw i false 0 (candidates locale_lt s i) s.messages
        (candidates-IsWaiting locale_lt s i c.each) c.each;
  unique = λ k.
      claim_each_unique hash draw i false 0 (candidates locale_lt s i) s.messages k (c.unique k);
  granted = c.granted;
}

pub acknowledge_message-IsConsistent :
    (hash : String → String) (draw : Message → String) (s : Store) (i : AckInput)
    → IsConsistent s
    → IsConsistent (acknowledge_message hash draw s i).1
unfolding acknowledge_message
acknowledge_message-IsConsistent hash draw s i c =
    elim (Option-cases (get i.message_id s.messages)) [
      | inl e ↦ rw (e, acknowledge_message) c
      | inr (m, e) ↦
          let kept : KeepsMessage (i.message_id, m) =
            All-get KeepsMessage i.message_id s.messages c.each e in
          rw (e, acknowledge_message)
            (elim (Bool-cases (is_leased hash draw i m)) [
              | inr h ↦ rw h c
              | inl h ↦ rw h (record {
                each =
                    All-set KeepsMessage i.message_id (delivered hash draw i.now m) s.messages
                      (kept.0, refl) c.each;
                unique = λ k. count-set k i.message_id _ s.messages (c.unique k);
                granted = c.granted;
              })
            ])
    ]

pub expire_messages-IsConsistent :
    (s : Store) (now before : ℕ) → IsConsistent s → IsConsistent (expire_messages s now before).1
unfolding expire_messages
expire_messages-IsConsistent s now before c =
    let swept = update (expire_if (λ m. leb m.envelope.expires_at now)) s.messages in
    record {
      each =
          All-select KeepsMessage _ swept
            (expired_keep (λ m. leb m.envelope.expires_at now) s.messages c.each);
      unique = λ k. omega (
        arith,
        c.unique k,
        count-update (expire_if (λ m. leb m.envelope.expires_at now)) k s.messages,
        total-select (λ e. one_if (e.0 === k)) (λ e. not (is_purged before e.1)) swept,
      );
      granted = c.granted;
    }
