-- ===== src/Audit/Verify.antt =====
-- `verify` of src/modules/audit/service.ts.
use otto_control.Prelude.{
  ℕ, zero, suc, ◌-◌, String, ◌===◌, ◌=?◌, Bool, false, not, ◌&&◌, ◌||◌, if◌then◌else◌, ltb, leb,
  ◌==◌, Option, none, some, is_some, Option-map, List, [], ◌∷◌,
}
use otto_control.Audit.Canonical.{Runtime}
use otto_control.Audit.Chain.{
  Event, AuditStore, audit_event_hash, genesis_hash, list_chained, count_legacy,
}

abbrev pub batch_size : ℕ
batch_size = 1000

-- The variables of the loop.
pub record Progress : Type 0 where
  pub checked_events : ℕ
  pub previous_hash : String
  pub expected_sequence : ℕ
  pub broken_at : Option ℕ

unfoldable pub start : Progress
start = record {
  checked_events = 0;
  previous_hash = genesis_hash;
  expected_sequence = 1;
  broken_at = none;
}

unfoldable pub is_sequence : ℕ → Option ℕ → Bool
is_sequence n none = false
is_sequence n (some m) = m == n

unfoldable pub is_next : Runtime → Progress → Event → Bool
is_next rt p e =
    is_sequence p.expected_sequence e.chain_sequence
    && (e.previous_hash =? some p.previous_hash)
    && (e.event_hash =? some (audit_event_hash rt p.expected_sequence p.previous_hash e.content))

-- The hash of an event that passed the tests, so that it has one.
unfoldable pub hash_or : String → Option String → String
hash_or h none = h
hash_or h (some g) = g

unfoldable pub advance : Event → Progress → Progress
advance e p = record {
  checked_events = suc p.checked_events;
  previous_hash = hash_or p.previous_hash e.event_hash;
  expected_sequence = suc p.expected_sequence;
  broken_at = p.broken_at;
}

unfoldable pub break_at_expected : Progress → Progress
break_at_expected p = record p { broken_at = some p.expected_sequence }

unfoldable pub check_batch : Runtime → Progress → List Event → Progress
check_batch rt p [] = p
check_batch rt p (e ∷ es) =
    let rest = check_batch rt (advance e p) es in
    if is_next rt p e then rest else break_at_expected p

-- A batch that is empty ends the chain too early.
unfoldable pub check_fetched : Runtime → Progress → List Event → Progress
check_fetched rt p [] = break_at_expected p
check_fetched rt p (e ∷ es) = check_batch rt p (e ∷ es)

unfoldable pub fetched : AuditStore → Progress → List Event
fetched s p = list_chained (p.expected_sequence - 1) s.last_sequence batch_size s

unfoldable pub goes_on : AuditStore → Progress → Bool
goes_on s p = leb p.expected_sequence s.last_sequence && not (is_some p.broken_at)

-- The loop, on fuel; nothing is returned when the fuel runs out.
unfoldable pub verify_loop : Runtime → AuditStore → ℕ → Progress → Option Progress
verify_loop rt s zero p = if goes_on s p then none else some p
verify_loop rt s (suc fuel) p =
    let rest = verify_loop rt s fuel (check_fetched rt p (fetched s p)) in
    if goes_on s p then rest else some p

-- The signed receipt, less issuer and instant.
pub record Receipt : Type 0 where
  pub valid : Bool
  pub checked_events : ℕ
  pub first_sequence : Option ℕ
  pub last_sequence : ℕ
  pub head_hash : String
  pub broken_at : Option ℕ
  pub legacy_event_count : ℕ

unfoldable pub max : ℕ → ℕ → ℕ
max a b = if ltb a b then b else a

unfoldable pub ends_elsewhere : AuditStore → Progress → Bool
ends_elsewhere s p =
    not (p.checked_events == s.last_sequence) || not (p.previous_hash === s.head_hash)

unfoldable pub final_break : AuditStore → Progress → Option ℕ
final_break s p =
    if not (is_some p.broken_at) && ends_elsewhere s p
    then some (max 1 p.expected_sequence)
    else p.broken_at

unfoldable pub receipt : AuditStore → Progress → Receipt
receipt s p = record {
  valid = not (is_some (final_break s p));
  checked_events = p.checked_events;
  first_sequence = if s.last_sequence == 0 then none else some 1;
  last_sequence = s.last_sequence;
  head_hash = s.head_hash;
  broken_at = final_break s p;
  legacy_event_count = count_legacy s;
}

unfoldable pub verify : Runtime → AuditStore → Option Receipt
verify rt s = Option-map (receipt s) (verify_loop rt s (suc s.last_sequence) start)
