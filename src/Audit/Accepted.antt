-- ===== src/Audit/Accepted.antt =====
-- The verification accepts what the store appends.
use otto_control.Prelude.{
  ℕ, zero, suc, ◌+◌, ◌≤◌, ◌<◌, String, ◌===◌, ===_refl, true, false, ◌==◌, none, some, List, [],
  ◌∷◌, ◌++◌, All, length, take, drop, take-append-drop, ◌≡◌, refl, sym, ap, ◌∙◌, arith, ==_iff,
  le→leb,
}
use mathlib.Core.Path.{subst}
use mathlib.Core.List.{append_assoc, append-nil}
use otto_control.Audit.Canonical.{Runtime}
use otto_control.Audit.Chain.{
  Event, EventInput, AuditStore, audit_event_hash, chained_event, genesis_hash, is_legacy,
  append_chained,
}
use otto_control.Audit.Verify.{
  Progress, start, advance, is_next, is_sequence, check_batch, check_fetched, fetched, goes_on,
  verify_loop, receipt, Receipt, verify, final_break, ends_elsewhere, hash_or, batch_size,
}
use otto_control.Audit.Stored.{IsRestored, IsTransitive}
use otto_control.Audit.Linked.{Linked, Linked-append, length-Linked}
use otto_control.Audit.Terminates.{verify_loop_stops}
use otto_control.Audit.Appended.{IsChained, fetched_rest, append_chained-IsChained}

is_next_chained :
    (rt : Runtime) (p : Progress) (e : Event)
    → e ≡ chained_event rt p.expected_sequence p.previous_hash e.content
    → is_next rt p e ≡ true
unfolding is_next is_sequence chained_event
is_next_chained rt p e same =
    let a = ap (λ x. x.chain_sequence) same in
    let b = ap (λ x. x.previous_hash) same in
    let c = ap (λ x. x.event_hash) same in
    rw
      (
        a,
        b,
        c,
        ===_refl p.previous_hash,
        ===_refl (audit_event_hash rt p.expected_sequence p.previous_hash e.content),
      )
      (rw ((==_iff p.expected_sequence p.expected_sequence).1 refl) refl)

abbrev reached : Progress → ℕ → ℕ → String → Progress
reached p k m g = record {
  checked_events = p.checked_events + k;
  previous_hash = g;
  expected_sequence = m;
  broken_at = p.broken_at;
}

check_batch-Linked :
    (rt : Runtime) (p : Progress) (xs : List Event) (m : ℕ) (g : String)
    → Linked rt p.expected_sequence p.previous_hash xs m g
    → check_batch rt p xs ≡ reached p (length xs) m g
unfolding check_batch advance hash_or chained_event audit_event_hash
check_batch-Linked rt p [] m g a =
    let same : p.checked_events ≡ p.checked_events + 0 = omega arith in
    rw (← a.0, ← a.1) (ap (λ k. record p { checked_events = k }) same)
check_batch-Linked rt p (x ∷ xs) m g a =
    let hash = sym (ap (λ e. hash_or p.previous_hash e.event_hash) a.0) in
    let later = subst (λ h. Linked rt (suc p.expected_sequence) h xs m g) hash a.1 in
    let same : suc p.checked_events + length xs ≡ p.checked_events + suc (length xs) =
      omega arith in
    let rest = check_batch-Linked rt (advance x p) xs m g later in
    rw (is_next_chained rt p x a.0)
      (rest ∙ ap (λ k. record (reached p 0 m g) { checked_events = k }) same)

Linked-split :
    (rt : Runtime) (k : ℕ) (xs : List Event) (n m : ℕ) (h g : String)
    → Linked rt n h xs m g
    → (b : ℕ) × (t : String) × Linked rt n h (take k xs) b t × Linked rt b t (drop k xs) m g
Linked-split rt zero xs n m h g a = (n, h, (refl, refl), a)
Linked-split rt (suc k) [] n m h g a = (n, h, (refl, refl), a)
Linked-split rt (suc k) (x ∷ xs) n m h g a =
    let (b, t, first, rest) = Linked-split rt k xs (suc n) m _ g a.1 in (b, t, (a.0, first), rest)

record IsComplete (s : AuditStore) (q : Progress) : Type 0 where
  whole : q.broken_at ≡ none
  last : q.expected_sequence ≡ suc s.last_sequence
  head : q.previous_hash ≡ s.head_hash
  counted : q.expected_sequence ≡ suc q.checked_events

past_end :
    (s : AuditStore) (p : Progress)
    → p.expected_sequence ≡ suc s.last_sequence
    → goes_on s p ≡ false
unfolding goes_on
past_end s p e = ground arith

before_end :
    (s : AuditStore) (p : Progress)
    → p.expected_sequence ≤ s.last_sequence
    → p.broken_at ≡ none
    → goes_on s p ≡ true
unfolding goes_on
before_end s p low whole = rw (le→leb p.expected_sequence s.last_sequence low, whole) refl

accept_loop :
    (rt : Runtime) (s : AuditStore) (legacy done rest : List Event) (fuel : ℕ) (p : Progress)
    → s.events ≡ legacy ++ (done ++ rest)
    → All (λ e. is_legacy e ≡ true) legacy
    → Linked rt 1 genesis_hash done p.expected_sequence p.previous_hash
    → Linked rt p.expected_sequence p.previous_hash rest (suc s.last_sequence) s.head_hash
    → p.broken_at ≡ none
    → p.expected_sequence ≡ suc p.checked_events
    → s.last_sequence < p.expected_sequence + fuel
    → (q : Progress) × (verify_loop rt s fuel p ≡ some q) × IsComplete s q
unfolding verify_loop check_fetched
accept_loop rt s legacy done [] fuel p rows old before after whole counted enough = (
  p,
  verify_loop_stops rt s fuel p (past_end s p after.0),
  record { whole = whole; last = after.0; head = after.1; counted = counted },
)
accept_loop rt s legacy done (e ∷ es) zero p rows old before after whole counted enough =
    absurd (omega (arith, length-Linked rt (e ∷ es) _ _ _ _ after))
accept_loop rt s legacy done (e ∷ es) (suc fuel) p rows old before after whole counted enough =
    let (b, t, first, later) = Linked-split rt batch_size (e ∷ es) _ _ _ _ after in
    let batch = take batch_size (e ∷ es) in
    let q = reached p (length batch) b t in
    let on : goes_on s p ≡ true =
      before_end s p (omega (arith, length-Linked rt (e ∷ es) _ _ _ _ after)) whole in
    let checked : check_fetched rt p (fetched s p) ≡ q =
      rw (fetched_rest rt s legacy done (e ∷ es) p rows old before after)
        (check_batch-Linked rt p batch b t first) in
    let longer = Linked-append rt done batch 1 _ _ genesis_hash _ _ before first in
    let rows' : s.events ≡ legacy ++ ((done ++ batch) ++ drop batch_size (e ∷ es)) =
      rw (append_assoc done batch (drop batch_size (e ∷ es)), take-append-drop batch_size (e ∷ es))
        rows in
    let (r, there, complete) =
      accept_loop rt s legacy (done ++ batch) (drop batch_size (e ∷ es)) fuel q rows' old longer
        later whole (omega (arith, counted, length-Linked rt batch _ _ _ _ first))
        (omega (arith, length-Linked rt batch _ _ _ _ first)) in
    (r, rw (on, checked) there, complete)

complete_receipt :
    (s : AuditStore) (q : Progress)
    → IsComplete s q
    → ((receipt s q).valid ≡ true) × ((receipt s q).checked_events ≡ s.last_sequence)
unfolding receipt final_break ends_elsewhere
complete_receipt s q c =
    let checked : q.checked_events ≡ s.last_sequence = omega (arith, c.counted, c.last) in
    let a : (q.checked_events == s.last_sequence) ≡ true =
      (==_iff q.checked_events s.last_sequence).1 checked in
    let b : (q.previous_hash === s.head_hash) ≡ true = rw c.head (===_refl s.head_hash) in
    (rw (c.whole, a, b) refl, checked)

verify-IsChained :
    (rt : Runtime) (s : AuditStore)
    → IsChained rt s
    → (r : Receipt) × (verify rt s ≡ some r)
      × (r.valid ≡ true)
      × (r.checked_events ≡ s.last_sequence)
unfolding verify start
verify-IsChained rt s k =
    let (q, there, complete) =
      accept_loop rt s k.legacy [] k.chain (suc s.last_sequence) start k.rows k.old (refl, refl)
        k.linked refl refl (omega arith) in
    let (valid, checked) = complete_receipt s q complete in
    (receipt s q, rw there refl, valid, checked)

-- The store that the migration leaves: older rows and an empty chain.
abbrev pub migrated : List Event → AuditStore
migrated legacy = record { events = legacy; last_sequence = 0; head_hash = genesis_hash }

abbrev pub append_all : Runtime → List (EventInput × ℕ) → AuditStore → AuditStore
append_all rt [] s = s
append_all rt (i ∷ is) s = append_all rt is (append_chained rt i.0 i.1 s)

append_all-IsChained :
    (rt : Runtime) (is : List (EventInput × ℕ)) (s : AuditStore)
    → ((t : String) → (rt.sha256 t === "") ≡ false)
    → IsTransitive rt
    → All (λ i. IsRestored rt i.0.detail) is
    → IsChained rt s
    → IsChained rt (append_all rt is s)
      × ((append_all rt is s).last_sequence ≡ s.last_sequence + length is)
unfolding append_chained
append_all-IsChained rt [] s full trans restored k = (k, omega arith)
append_all-IsChained rt (i ∷ is) s full trans restored k =
    let (a, b) =
      append_all-IsChained rt is (append_chained rt i.0 i.1 s) full trans restored.1
        (append_chained-IsChained rt i.0 i.1 s full trans restored.0 k) in
    (a, omega (arith, b))

-- After the migration the receipt is valid and counts all events, whichever were recorded, where
-- the column gives their details back up to the order of keys and entries that are undefined, no
-- hash is the empty text, and the order of texts is transitive and tells the keys of an object
-- apart.
pub verify-append_all :
    (rt : Runtime) (legacy : List Event) (is : List (EventInput × ℕ))
    → ((t : String) → (rt.sha256 t === "") ≡ false)
    → IsTransitive rt
    → All (λ i. IsRestored rt i.0.detail) is
    → All (λ e. is_legacy e ≡ true) legacy
    → (r : Receipt) × (verify rt (append_all rt is (migrated legacy)) ≡ some r)
      × (r.valid ≡ true)
      × (r.checked_events ≡ length is)
verify-append_all rt legacy is full trans restored old =
    let empty : IsChained rt (migrated legacy) = record {
      legacy = legacy;
      chain = [];
      rows = sym (append-nil legacy);
      old = old;
      linked = (refl, refl);
      named = refl;
    } in
    let (k, last) = append_all-IsChained rt is (migrated legacy) full trans restored empty in
    let (r, there, valid, checked) = verify-IsChained rt (append_all rt is (migrated legacy)) k in
    (r, there, valid, omega (arith, checked, last))
