-- ===== src/Audit/Appended.antt =====
-- The rows that appends leave, and the batches that are read out of them.
use otto_control.Prelude.{
  ℕ, suc, ◌-◌, ◌≤◌, ◌<◌, String, ◌===◌, Bool, true, false, Option-cases, inl, inr, some, List, [],
  ◌∷◌, ◌++◌, All, All-map, select, sort_by, take, select-append, select-all, select-none, ◌≡◌, refl,
  ap, ◌∙◌, arith,
}
use mathlib.Core.Path.{subst, sym}
use mathlib.Core.List.{append_assoc}
use otto_control.Audit.Canonical.{Runtime}
use otto_control.Audit.Chain.{
  Event, EventInput, AuditStore, audit_event_hash, chained_event, genesis_hash, or_genesis,
  append_chained, appended_event, stored_content, Content, list_chained, within, precedes,
  is_legacy,
}
use otto_control.Audit.Stored.{
  IsRestored, IsTransitive, appended_event-chained, audit_event_hash-stored,
}
use otto_control.Audit.Verify.{Progress, fetched, batch_size}
use otto_control.Audit.Linked.{Linked, Linked-append, length-Linked}

-- A table of legacy rows followed by the chain up to the head.
pub record IsChained (rt : Runtime) (s : AuditStore) : Type 0 where
  pub legacy : List Event
  pub chain : List Event
  pub rows : s.events ≡ legacy ++ chain
  pub old : All (λ e. is_legacy e ≡ true) legacy
  pub linked : Linked rt 1 genesis_hash chain (suc s.last_sequence) s.head_hash
  pub named : (s.head_hash === "") ≡ false

pub append_chained-IsChained :
    (rt : Runtime) (i : EventInput) (at : ℕ) (s : AuditStore)
    → ((t : String) → (rt.sha256 t === "") ≡ false)
    → IsTransitive rt
    → IsRestored rt i.detail
    → IsChained rt s
    → IsChained rt (append_chained rt i at s)
unfolding append_chained or_genesis audit_event_hash appended_event stored_content
append_chained-IsChained rt i at s full trans restored k =
    let c : Content = record { input = i; created_at = at } in
    let last : List Event = appended_event rt (suc s.last_sequence) s.head_hash c ∷ [] in
    let own = appended_event-chained rt (suc s.last_sequence) s.head_hash c trans restored in
    record {
      legacy = k.legacy;
      chain = k.chain ++ last;
      rows = rw (k.named, k.rows) (append_assoc k.legacy k.chain last);
      old = k.old;
      linked = rw k.named (
          Linked-append rt k.chain last 1 (suc s.last_sequence) (suc (suc s.last_sequence))
            genesis_hash s.head_hash _ k.linked
            (
              own,
              (
                refl,
                sym (audit_event_hash-stored rt (suc s.last_sequence) s.head_hash c trans restored),
              ),
            ));
      named = full _;
    }

-- Sequence numbers from n, below m.
Numbered : ℕ → ℕ → Event → Type 0
Numbered n m e = (k : ℕ) × (e.chain_sequence ≡ some k) × (n ≤ k) × (k < m)

Linked-Numbered :
    (rt : Runtime) (xs : List Event) (n m : ℕ) (h g : String)
    → Linked rt n h xs m g
    → All (Numbered n m) xs
unfolding Numbered chained_event
Linked-Numbered rt [] n m h g a = tt
Linked-Numbered rt (x ∷ xs) n m h g a =
    let later = a.1 in
    (
      (
        n,
        ap (λ e. e.chain_sequence) a.0,
        omega arith,
        omega (arith, length-Linked rt (x ∷ xs) n m h g a),
      ),
      All-map (λ e t. (t.0, t.1, omega (arith, t.2), t.3)) xs
          (Linked-Numbered rt xs (suc n) m _ g later),
    )

by_sequence : Event → Event → Bool
by_sequence a b = precedes a.chain_sequence b.chain_sequence

in_order :
    (x y : Event) (n : ℕ)
    → x.chain_sequence ≡ some n
    → y.chain_sequence ≡ some (suc n)
    → by_sequence y x ≡ false
unfolding by_sequence precedes
in_order x y n a b = rw (a, b) (ground arith)

sort_by-Linked :
    (rt : Runtime) (xs : List Event) (n m : ℕ) (h g : String)
    → Linked rt n h xs m g
    → sort_by by_sequence xs ≡ xs
unfolding chained_event
sort_by-Linked rt [] n m h g a = refl
sort_by-Linked rt (x ∷ []) n m h g a = refl
sort_by-Linked rt (x ∷ y ∷ ys) n m h g a =
    let first = ap (λ e. e.chain_sequence) a.0 in
    let second = ap (λ e. e.chain_sequence) a.1.0 in
    rw (sort_by-Linked rt (y ∷ ys) (suc n) m _ g a.1, in_order x y n first second) refl

inside : ℕ → ℕ → Event → Bool
inside after through e = within after through e.chain_sequence

legacy_outside :
    (after through : ℕ) (e : Event) → is_legacy e ≡ true → inside after through e ≡ false
unfolding inside within is_legacy
legacy_outside after through e h = elim (Option-cases e.chain_sequence) [
  | inl none_there ↦ rw none_there refl
  | inr (n, there) ↦ let impossible = rw there at h in cc
]

earlier_outside : (n m through : ℕ) (e : Event) → Numbered n m e → inside (m - 1) through e ≡ false
unfolding inside within Numbered
earlier_outside n m through e (k, there, low, high) = rw there (ground arith)

later_inside : (n m : ℕ) (e : Event) → Numbered (suc n) (suc m) e → inside n m e ≡ true
unfolding inside within Numbered
later_inside n m e (k, there, low, high) = rw there (ground arith)

-- What remains of the chain after the events that were read is what the next batch is taken of.
pub fetched_rest :
    (rt : Runtime) (s : AuditStore) (legacy done rest : List Event) (p : Progress)
    → s.events ≡ legacy ++ (done ++ rest)
    → All (λ e. is_legacy e ≡ true) legacy
    → Linked rt 1 genesis_hash done p.expected_sequence p.previous_hash
    → Linked rt p.expected_sequence p.previous_hash rest (suc s.last_sequence) s.head_hash
    → fetched s p ≡ take batch_size rest
unfolding fetched list_chained inside by_sequence
fetched_rest rt s legacy done rest p rows old before after =
    let n = p.expected_sequence in
    let m = s.last_sequence in
    let a = select-none (inside (n - 1) m) legacy (All-map (legacy_outside (n - 1) m) legacy old) in
    let b =
      select-none (inside (n - 1) m) done
        (All-map (earlier_outside 1 n m) done (Linked-Numbered rt done 1 n _ _ before)) in
    let positive : n ≡ suc (n - 1) = omega (arith, length-Linked rt done 1 n _ _ before) in
    let numbered =
      subst (λ k. All (Numbered k (suc m)) rest) positive
        (Linked-Numbered rt rest n (suc m) _ _ after) in
    let c = select-all (inside (n - 1) m) rest (All-map (later_inside (n - 1) m) rest numbered) in
    let sorted = sort_by-Linked rt rest n (suc m) _ _ after in
    let chosen : select (inside (n - 1) m) s.events ≡ rest =
      rw
        (
          rows,
          select-append (inside (n - 1) m) legacy (done ++ rest),
          select-append (inside (n - 1) m) done rest,
          a,
          b,
          c,
        )
        refl in
    ap (take batch_size) (ap (sort_by by_sequence) chosen ∙ sorted)
