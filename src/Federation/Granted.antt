-- ===== src/Federation/Granted.antt =====
-- What a request between agents uses up.
use otto_control.Prelude.{
  ◌+◌, true, false, some, Option, get, get-set, Option-cases, Bool-cases, inl, inr, ◌≡◌, arith,
}
use mathlib.Core.Path.{subst, sym}
use otto_control.Errors.{ok, ok_inj}
use otto_control.Federation.Records.{Store, Grant, MessageType}
use otto_control.Federation.Enqueue.{
  EnqueueInput, EnqueueResult, enqueue_message, used_grant, grant_admits, get_opt,
}
use otto_control.Federation.Capacity.{enqueue_message_new}
use otto_control.Federation.Queued.{authorize_used}

used_grant-eq-ok :
    (s : Store) (i : EnqueueInput) (o : Option Grant)
    → i.signed.envelope.kind ≡ MessageType.a2a_request
    → used_grant s i ≡ ok o
    → (g : Grant) × (o ≡ some g)
      × (get_opt i.signed.envelope.routing.a2a_grant_id s.grants ≡ some g)
      × (grant_admits i.signed.envelope i.now g ≡ true)
unfolding used_grant
used_grant-eq-ok s i o request e =
    elim (Option-cases (get_opt i.signed.envelope.routing.a2a_grant_id s.grants)) [
      | inl n ↦ absurd (ground (arith, rw (n, used_grant, request) at e))
      | inr (g, n) ↦ elim (Bool-cases (grant_admits i.signed.envelope i.now g)) [
        | inr h ↦ absurd (ground (arith, rw (n, used_grant, request, h) at e))
        | inl h ↦ (g, sym (ok_inj (rw (n, used_grant, request, h) at e)), n, h)
      ]
    ]

-- A new `a2a.request` names a grant of its recipient to its sender that admits it, unrevoked,
-- unexpired and with a use left, and one use of it is counted.
pub enqueue_message_granted :
    (s : Store) (i : EnqueueInput) (r : EnqueueResult) (s' : Store)
    → enqueue_message s i ≡ (ok r, s')
    → r.duplicate ≡ false
    → i.signed.envelope.kind ≡ MessageType.a2a_request
    → (g : Grant) × (get_opt i.signed.envelope.routing.a2a_grant_id s.grants ≡ some g)
      × (grant_admits i.signed.envelope i.now g ≡ true)
      × (get g.id s'.grants ≡ some (record g { used_count = g.used_count + 1 }))
enqueue_message_granted s i r s' e new request =
    let (o, fresh, allowed, unused, is) = enqueue_message_new s i r s' e new in
    let (g, same, there, admits) = used_grant-eq-ok s i o request (authorize_used s i o allowed) in
    let row : Grant = record g { used_count = g.used_count + 1 } in
    (
      g,
      there,
      admits,
      subst (λ (t : Store). get g.id t.grants ≡ some row) (rw same at is)
          (get-set g.id row s.grants),
    )
