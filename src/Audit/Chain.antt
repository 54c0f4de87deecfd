-- ===== src/Audit/Chain.antt =====
-- The hash of an event of src/audit-chain.ts, and the audit methods of
-- src/storage/postgres-store.ts: appendChainedAuditEvent, listChainedAuditEvents,
-- getAuditChainState and countLegacyAuditEvents.
use otto_control.Prelude.{
  ℕ, suc, String, ◌===◌, Bool, true, false, if◌then◌else◌, ltb, leb, Option, none, some, List, [],
  ◌∷◌, ◌++◌, select, sort_by, take, length, pos, ◌&&◌,
}
use otto_control.Audit.Canonical.{
  Json, text, integer, object, no_entry, entry, Runtime, canonical_json,
}

abbrev pub genesis_hash : String
genesis_hash = "0000000000000000000000000000000000000000000000000000000000000000"

-- What a caller records. The store adds sequence, hashes and instant.
pub record EventInput : Type 0 where
  pub actor_id : String
  pub action : String
  pub target_type : String
  pub target_id : String
  pub detail : Json

-- The fields that a hash binds besides the sequence and the hash before it.
pub record Content : Type 0 where
  pub input : EventInput
  pub created_at : ℕ

unfoldable pub hash_payload : Runtime → ℕ → String → Content → Json
hash_payload rt sequence previous_hash c = object (
    entry "version" (integer (pos 1)) (
      entry "sequence" (integer (pos sequence)) (
        entry "previousHash" (text previous_hash) (
          entry "actorId" (text c.input.actor_id) (
            entry "action" (text c.input.action) (
              entry "targetType" (text c.input.target_type) (
                entry "targetId" (text c.input.target_id) (
                  entry "detail" c.input.detail
                    (entry "createdAt" (text (rt.to_iso_string c.created_at)) no_entry)))))))))

unfoldable pub audit_event_hash : Runtime → ℕ → String → Content → String
audit_event_hash rt sequence previous_hash c =
    rt.sha256 (canonical_json rt (hash_payload rt sequence previous_hash c))

-- The content of the row: the detail goes through the column of type JSONB, which keeps neither the
-- order of the keys nor entries that are undefined.
unfoldable pub stored_content : Runtime → Content → Content
stored_content rt c = record {
  input = record c.input { detail = rt.read_back c.input.detail };
  created_at = c.created_at;
}

-- A row of control_audit_events, as it is read. The rows from before the chain have none of its three columns.
pub record Event : Type 0 where
  pub content : Content
  pub chain_sequence : Option ℕ
  pub previous_hash : Option String
  pub event_hash : Option String

-- The table and the single row of control_audit_chain_state.
pub record AuditStore : Type 0 where
  pub events : List Event
  pub last_sequence : ℕ
  pub head_hash : String

-- `head_hash || AUDIT_GENESIS_HASH`.
unfoldable pub or_genesis : String → String
or_genesis h = if h === "" then genesis_hash else h

-- The row whose hash is that of its own content.
unfoldable pub chained_event : Runtime → ℕ → String → Content → Event
chained_event rt sequence previous c = record {
  content = c;
  chain_sequence = some sequence;
  previous_hash = some previous;
  event_hash = some (audit_event_hash rt sequence previous c);
}

-- The row that an append leaves: its hash was taken of the content before it was stored.
unfoldable pub appended_event : Runtime → ℕ → String → Content → Event
appended_event rt sequence previous c = record {
  content = stored_content rt c;
  chain_sequence = some sequence;
  previous_hash = some previous;
  event_hash = some (audit_event_hash rt sequence previous c);
}

unfoldable pub append_chained : Runtime → EventInput → ℕ → AuditStore → AuditStore
append_chained rt i created_at s =
    let sequence = suc s.last_sequence in
    let previous = or_genesis s.head_hash in
    let c : Content = record { input = i; created_at = created_at } in
    record {
      events = s.events ++ (appended_event rt sequence previous c ∷ []);
      last_sequence = sequence;
      head_hash = audit_event_hash rt sequence previous c;
    }

unfoldable pub within : ℕ → ℕ → Option ℕ → Bool
within after through none = false
within after through (some n) = ltb after n && leb n through

unfoldable pub precedes : Option ℕ → Option ℕ → Bool
precedes (some n) (some m) = ltb n m
precedes _ _ = false

unfoldable pub list_chained : ℕ → ℕ → ℕ → AuditStore → List Event
list_chained after through limit s = take limit (
    sort_by (λ a b. precedes a.chain_sequence b.chain_sequence)
      (select (λ e. within after through e.chain_sequence) s.events))

unfoldable pub is_legacy : Event → Bool
is_legacy e = elim e.chain_sequence [ none ↦ true | some n ↦ false ]

unfoldable pub count_legacy : AuditStore → ℕ
count_legacy s = length (select is_legacy s.events)
