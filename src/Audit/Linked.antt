-- ===== src/Audit/Linked.antt =====
-- Lists of events that form a chain, and that a chain that was verified is one.
use otto_control.Prelude.{
  ℕ, zero, suc, ◌+◌, ◌-◌, String, ◌===◌, ◌=?◌, ===_eq, true, Bool-cases, ◌&&◌, Option-cases, inl,
  inr, Option, none, some, List, [], ◌∷◌, ◌++◌, All, All-append, All-Mem, All-select_from,
  All-sort_by, All-take, Mem, select, ◌≡◌, refl, sym, ap, arith, ==_iff, ◌==◌, length,
}
use mathlib.Core.Bool.{and-eq-true_iff}
use mathlib.Core.Path.{subst}
use otto_control.Audit.Canonical.{Runtime}
use otto_control.Audit.Chain.{
  Event, AuditStore, audit_event_hash, chained_event, genesis_hash, list_chained, within, precedes,
}
use otto_control.Audit.Verify.{
  Progress, start, advance, is_next, is_sequence, check_batch, check_fetched, break_at_expected,
  fetched, goes_on, verify_loop, receipt, Receipt, verify, final_break, ends_elsewhere, hash_or,
  batch_size,
}
use otto_control.Audit.Terminates.{verify_loop_stops, verify_loop_ends, broken_stops}

-- From the sequence number and the hash that the first event has to have to those that an event
-- after the last one would have.
abbrev pub Linked : Runtime → ℕ → String → List Event → ℕ → String → Type 0
Linked rt n h [] m g = (n ≡ m) × (h ≡ g)
Linked rt n h (e ∷ es) m g =
    (e ≡ chained_event rt n h e.content)
    × Linked rt (suc n) (audit_event_hash rt n h e.content) es m g

pub Linked-append :
    (rt : Runtime) (xs ys : List Event) (n m k : ℕ) (h g f : String)
    → Linked rt n h xs m g
    → Linked rt m g ys k f
    → Linked rt n h (xs ++ ys) k f
Linked-append rt [] ys n m k h g f a b = rw (a.0, a.1) b
Linked-append rt (x ∷ xs) ys n m k h g f a b =
    (a.0, Linked-append rt xs ys (suc n) m k (audit_event_hash rt n h x.content) g f a.1 b)

pub length-Linked :
    (rt : Runtime) (xs : List Event) (n m : ℕ) (h g : String)
    → Linked rt n h xs m g
    → m ≡ n + length xs
length-Linked rt [] n m h g a = omega (arith, a.0)
length-Linked rt (x ∷ xs) n m h g a =
    omega (arith, length-Linked rt xs (suc n) m (audit_event_hash rt n h x.content) g a.1)

is_sequence_eq : (n : ℕ) (o : Option ℕ) → is_sequence n o ≡ true → o ≡ some n
unfolding is_sequence
is_sequence_eq n none h = cc
is_sequence_eq n (some m) h = rw ((==_iff m n).0 h) refl

=?_eq : (o : Option String) (t : String) → (o =? some t) ≡ true → o ≡ some t
=?_eq none t h = cc
=?_eq (some s) t h = rw (===_eq s t h) refl

-- An event that passes the tests is the one that the store would append.
is_next-eq :
    (rt : Runtime) (p : Progress) (e : Event)
    → is_next rt p e ≡ true
    → e ≡ chained_event rt p.expected_sequence p.previous_hash e.content
unfolding is_next chained_event
is_next-eq rt p e h =
    let n = p.expected_sequence in
    let t = p.previous_hash in
    let linked =
      (and-eq-true_iff (is_sequence n e.chain_sequence && e.previous_hash =? some t) _).0 h in
    let follows = (and-eq-true_iff (is_sequence n e.chain_sequence) _).0 linked.0 in
    let a = is_sequence_eq n e.chain_sequence follows.0 in
    let b = =?_eq e.previous_hash t follows.1 in
    let c = =?_eq e.event_hash (audit_event_hash rt n t e.content) linked.1 in
    λ i. record { content = e.content; chain_sequence = a i; previous_hash = b i; event_hash = c i }

-- What a run of the loop has read: rows of the table, which link the variables before and after.
pub record IsRead (rt : Runtime) (s : AuditStore) (p q : Progress) : Type 0 where
  pub events : List Event
  pub stored : All (λ e. Mem e s.events) events
  pub linked :
      Linked rt p.expected_sequence p.previous_hash events q.expected_sequence q.previous_hash
  pub counted : q.expected_sequence + p.checked_events ≡ p.expected_sequence + q.checked_events

none-IsRead : (rt : Runtime) (s : AuditStore) (p : Progress) → IsRead rt s p p
none-IsRead rt s p = record { events = []; stored = tt; linked = (refl, refl); counted = refl }

IsRead-append :
    (rt : Runtime) (s : AuditStore) (p q r : Progress)
    → IsRead rt s p q
    → IsRead rt s q r
    → IsRead rt s p r
IsRead-append rt s p q r a b = record {
  events = a.events ++ b.events;
  stored = All-append (λ e. Mem e s.events) a.events b.events a.stored b.stored;
  linked =
      Linked-append rt a.events b.events p.expected_sequence q.expected_sequence r.expected_sequence
        p.previous_hash q.previous_hash r.previous_hash a.linked b.linked;
  counted = omega (arith, a.counted, b.counted);
}

next-IsRead :
    (rt : Runtime) (s : AuditStore) (p : Progress) (e : Event)
    → Mem e s.events
    → is_next rt p e ≡ true
    → IsRead rt s p (advance e p)
unfolding advance hash_or chained_event
next-IsRead rt s p e m h =
    let same = is_next-eq rt p e h in
    record {
      events = e ∷ [];
      stored = (m, tt);
      linked = (same, (refl, sym (ap (λ x. hash_or p.previous_hash x.event_hash) same)));
      counted = omega arith;
    }

check_batch-IsRead :
    (rt : Runtime) (s : AuditStore) (p : Progress) (es : List Event)
    → All (λ e. Mem e s.events) es
    → (check_batch rt p es).broken_at ≡ none
    → IsRead rt s p (check_batch rt p es)
unfolding check_batch break_at_expected
check_batch-IsRead rt s p [] a whole = none-IsRead rt s p
check_batch-IsRead rt s p (e ∷ es) a whole = elim (Bool-cases (is_next rt p e)) [
  | inl h ↦
      let rest = check_batch-IsRead rt s (advance e p) es a.1 (rw h at whole) in
      rw h (IsRead-append rt s p (advance e p) _ (next-IsRead rt s p e a.0 h) rest)
  | inr h ↦ let impossible = rw h at whole in cc
]

check_fetched-IsRead :
    (rt : Runtime) (s : AuditStore) (p : Progress) (es : List Event)
    → All (λ e. Mem e s.events) es
    → (check_fetched rt p es).broken_at ≡ none
    → IsRead rt s p (check_fetched rt p es)
unfolding check_fetched break_at_expected
check_fetched-IsRead rt s p [] a whole = cc
check_fetched-IsRead rt s p (e ∷ es) a whole = check_batch-IsRead rt s p (e ∷ es) a whole

fetched-stored : (s : AuditStore) (p : Progress) → All (λ e. Mem e s.events) (fetched s p)
unfolding fetched list_chained
fetched-stored s p =
    let P = λ (e : Event). Mem e s.events in
    let inside = λ (e : Event). within (p.expected_sequence - 1) s.last_sequence e.chain_sequence in
    let before = λ (a b : Event). precedes a.chain_sequence b.chain_sequence in
    let chosen = All-select_from P P inside s.events (All-Mem s.events) (λ e m h. m) in
    All-take P batch_size _ (All-sort_by P before (select inside s.events) chosen)

pub verify_loop-IsRead :
    (rt : Runtime) (s : AuditStore) (fuel : ℕ) (p : Progress) {q : Progress}
    → verify_loop rt s fuel p ≡ some q
    → q.broken_at ≡ none
    → IsRead rt s p q
unfolding verify_loop
verify_loop-IsRead rt s zero p {q} e whole = elim (Bool-cases (goes_on s p)) [
  | inl h ↦ let impossible = rw h at e in cc
  | inr h ↦
      let same : p ≡ q = cc (rw h at e) in subst (λ x. IsRead rt s p x) same (none-IsRead rt s p)
]
verify_loop-IsRead rt s (suc fuel) p {q} e whole =
    let p1 = check_fetched rt p (fetched s p) in
    elim (Bool-cases (goes_on s p)) [
      | inl h ↦
          let later : verify_loop rt s fuel p1 ≡ some q = rw h at e in
          elim (Option-cases p1.broken_at) [
            | inl sound ↦
                let read = check_fetched-IsRead rt s p (fetched s p) (fetched-stored s p) sound in
                IsRead-append rt s p p1 q read (verify_loop-IsRead rt s fuel p1 later whole)
            | inr (n, broken) ↦
                let stops = verify_loop_stops rt s fuel p1 (broken_stops s p1 (rw broken refl)) in
                let same : p1 ≡ q = cc in
                let impossible : p1.broken_at ≡ none =
                  subst (λ x. x.broken_at ≡ none) (sym same) whole in
                cc
          ]
      | inr h ↦
          let same : p ≡ q = cc (rw h at e) in
          subst (λ x. IsRead rt s p x) same (none-IsRead rt s p)
    ]

-- The chain of a store up to its last sequence and its head, out of rows of its table.
pub record IsVerified (rt : Runtime) (s : AuditStore) : Type 0 where
  pub events : List Event
  pub stored : All (λ e. Mem e s.events) events
  pub linked : Linked rt 1 genesis_hash events (suc s.last_sequence) s.head_hash

valid_end :
    (s : AuditStore) (p : Progress)
    → (receipt s p).valid ≡ true
    → (p.broken_at ≡ none) × (p.checked_events ≡ s.last_sequence) × (p.previous_hash ≡ s.head_hash)
unfolding receipt final_break ends_elsewhere
valid_end s p h = elim (Option-cases p.broken_at) [
  | inl none_broken ↦ elim (Bool-cases (p.checked_events == s.last_sequence)) [
    | inl a ↦ elim (Bool-cases (p.previous_hash === s.head_hash)) [
      | inl b ↦ (
        none_broken,
        (==_iff p.checked_events s.last_sequence).0 a,
        ===_eq p.previous_hash s.head_hash b,
      )
      | inr b ↦ let impossible = rw (none_broken, a, b) at h in cc
    ]
    | inr a ↦ let impossible = rw (none_broken, a) at h in cc
  ]
  | inr (n, broken) ↦ let impossible = rw broken at h in cc
]

reached_end :
    (rt : Runtime) (s : AuditStore) (p : Progress)
    → IsRead rt s start p
    → p.expected_sequence ≡ suc s.last_sequence
    → p.previous_hash ≡ s.head_hash
    → IsVerified rt s
unfolding start
reached_end rt s p read last head = record {
  events = read.events;
  stored = read.stored;
  linked = rw (← last, ← head) read.linked;
}

-- A store whose receipt is valid holds a chain from the genesis hash to its head.
pub verify_valid-IsVerified :
    (rt : Runtime) (s : AuditStore) {r : Receipt}
    → verify rt s ≡ some r
    → r.valid ≡ true
    → IsVerified rt s
unfolding verify start
verify_valid-IsVerified rt s {r} e valid =
    let (p, there, done) = verify_loop_ends rt s (suc s.last_sequence) start (omega arith) in
    let same : receipt s p ≡ r = cc (rw there at e) in
    let (whole, counted, head) = valid_end s p (subst (λ x. x.valid ≡ true) (sym same) valid) in
    let read = verify_loop-IsRead rt s (suc s.last_sequence) start there whole in
    reached_end rt s p read (omega (arith, read.counted, counted)) head
