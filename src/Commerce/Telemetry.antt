-- ===== src/Commerce/Telemetry.antt =====
-- The search for content in telemetry of src/modules/commercial-control/service.ts, and
-- ingestTelemetryBatch of src/storage/postgres-store.ts.
use otto_control.Prelude.{
  ℕ, suc, String, ◌===◌, Bool, false, ltb, any, List, [], ◌∷◌, Option, none, some, select, not,
  ◌||◌, ◌&&◌, if◌then◌else◌,
}
use otto_control.Audit.Canonical.{
  Json, array, object, Items, no_item, item, Entries, no_entry, entry,
}
use otto_control.Commerce.Records.{Nonce}
use otto_control.Commerce.Store.{is_nonce, live_nonces}

abbrev pub forbidden_keys : List String
forbidden_keys =
    "message" ∷ "messages" ∷ "content" ∷ "file" ∷ "files" ∷ "attachment" ∷ "attachments" ∷ "audio"
    ∷ "meetingaudio" ∷ "transcript" ∷ "prompt" ∷ "completion" ∷ "document" ∷ "documents" ∷ []

-- `normal` is `key.toLowerCase().replace(/[_-]/gu, '')`.
unfoldable pub is_forbidden : (String → String) → String → Bool
is_forbidden normal key = any (λ w. w === normal key) forbidden_keys

abbrev pub max_depth : ℕ
max_depth = 8

unfoldable mutual
  pub telemetry_contains_content : (String → String) → ℕ → Json → Bool
  telemetry_contains_content normal depth (array is) =
      ltb max_depth depth || items_contain_content normal depth is
  telemetry_contains_content normal depth (object es) =
      ltb max_depth depth || entries_contain_content normal depth es
  telemetry_contains_content normal depth v = ltb max_depth depth

  pub items_contain_content : (String → String) → ℕ → Items → Bool
  items_contain_content normal depth no_item = false
  items_contain_content normal depth (item v is) =
      telemetry_contains_content normal (suc depth) v || items_contain_content normal depth is

  pub entries_contain_content : (String → String) → ℕ → Entries → Bool
  entries_contain_content normal depth no_entry = false
  entries_contain_content normal depth (entry k v es) =
      (is_forbidden normal k || telemetry_contains_content normal (suc depth) v)
      || entries_contain_content normal depth es

pub record TelemetryEvent : Type 0 where
  pub id : String
  pub organization_id : Option String
  pub event_type : String
  pub created_at_ms : ℕ
  pub payload : Json
  pub integrity : String

-- A row of control_telemetry_events, whose key is the deployment with the event's id.
pub record TelemetryRow : Type 0 where
  pub deployment_id : String
  pub license_id : String
  pub event : TelemetryEvent
  pub received_at_ms : ℕ

pub record TelemetryStore : Type 0 where
  pub nonces : List Nonce
  pub rows : List TelemetryRow

pub record Batch : Type 0 where
  pub deployment_id : String
  pub license_id : String
  pub nonce : String
  pub nonce_expires_at_ms : ℕ
  pub retention_before_ms : ℕ
  pub received_at_ms : ℕ
  pub events : List TelemetryEvent

pub record TelemetryReceipt : Type 0 where
  pub accepted : ℕ
  pub duplicates : ℕ

unfoldable pub is_event : String → String → TelemetryRow → Bool
is_event deployment_id id r = r.deployment_id === deployment_id && r.event.id === id

unfoldable pub row_of : Batch → TelemetryEvent → TelemetryRow
row_of b e = record {
  deployment_id = b.deployment_id;
  license_id = b.license_id;
  event = e;
  received_at_ms = b.received_at_ms;
}

-- The loop over the events, with its two counters.
unfoldable pub insert_events :
    Batch
    → List TelemetryEvent
    → TelemetryReceipt
    → List TelemetryRow
    → TelemetryReceipt × List TelemetryRow
insert_events b [] r rows = (r, rows)
insert_events b (e ∷ es) r rows =
    let accepted =
      insert_events b es (record r { accepted = suc r.accepted }) (row_of b e ∷ rows) in
    let duplicate = insert_events b es (record r { duplicates = suc r.duplicates }) rows in
    if any (is_event b.deployment_id e.id) rows then duplicate else accepted

unfoldable pub retained : ℕ → List TelemetryRow → List TelemetryRow
retained before rows = select (λ r. not (ltb r.received_at_ms before)) rows

-- A nonce that is taken rolls the transaction back. The deployment and the license that the rows
-- refer to are those that the service has just read.
unfoldable pub ingest_telemetry_batch :
    Batch → TelemetryStore → Option TelemetryReceipt × TelemetryStore
ingest_telemetry_batch b s =
    let live = live_nonces b.received_at_ms s.nonces in
    let n : Nonce = record {
      deployment_id = b.deployment_id;
      nonce = b.nonce;
      expires_at_ms = b.nonce_expires_at_ms;
    } in
    let done =
      insert_events b b.events (record { accepted = 0; duplicates = 0 })
        (retained b.retention_before_ms s.rows) in
    if any (is_nonce b.deployment_id b.nonce) live
    then (none, s)
    else (some done.0, record { nonces = n ∷ live; rows = done.1 })
