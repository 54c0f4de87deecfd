-- ===== src/Commerce/Ingested.antt =====
-- What the ingestion of a batch of telemetry counts.
use otto_control.Prelude.{
  ℕ, Option, none, ◌===◌, ===_eq, ◌∙◌, find, is_some, Option-map, Option-cases, false, suc, ◌+◌,
  Bool, true, Bool-cases, inl, inr, any, List, [], ◌∷◌, length, some, ◌≡◌, refl, sym, ap, arith,
  String, ===_refl,
}
use mathlib.Core.Option.{some_inj}
use otto_control.Commerce.Store.{is_nonce, live_nonces}
use otto_control.Commerce.Telemetry.{
  TelemetryEvent, TelemetryRow, TelemetryReceipt, TelemetryStore, Batch, insert_events, is_event,
  row_of, retained, ingest_telemetry_batch,
}

-- The counters of a loop and the rows that it leaves, from those that it starts with.
record IsCounted (events : ℕ) (r q : TelemetryReceipt) (before after : List TelemetryRow)
    : Type 0 where
  total : q.accepted + q.duplicates ≡ r.accepted + r.duplicates + events
  grown : length after + r.accepted ≡ length before + q.accepted

insert_events-IsCounted :
    (b : Batch) (es : List TelemetryEvent) (r : TelemetryReceipt) (rows : List TelemetryRow)
    → IsCounted (length es) r (insert_events b es r rows).0 rows (insert_events b es r rows).1
unfolding insert_events
insert_events-IsCounted b [] r rows = record { total = omega arith; grown = refl }
insert_events-IsCounted b (e ∷ es) r rows =
    elim (Bool-cases (any (is_event b.deployment_id e.id) rows)) [
      | inl h ↦
          let k = insert_events-IsCounted b es (record r { duplicates = suc r.duplicates }) rows in
          rw h (record { total = omega (arith, k.total); grown = k.grown })
      | inr h ↦
          let k =
            insert_events-IsCounted b es (record r { accepted = suc r.accepted })
              (row_of b e ∷ rows) in
          rw h (record { total = omega (arith, k.total); grown = omega (arith, k.grown) })
    ]

-- A row with an event's data and those of its batch.
abbrev pub telemetry_row : Batch → TelemetryEvent → TelemetryRow
telemetry_row b e = record {
  deployment_id = b.deployment_id;
  license_id = b.license_id;
  event = e;
  received_at_ms = b.received_at_ms;
}

abbrev pub or_other : Option TelemetryRow → Option TelemetryRow → Option TelemetryRow
or_other none o = o
or_other (some r) o = some r

any-find : (p : TelemetryRow → Bool) (rows : List TelemetryRow) → any p rows ≡ is_some (find p rows)
any-find p [] = refl
any-find p (x ∷ rows) = elim (Bool-cases (p x)) [
  | inl h ↦ rw h refl
  | inr h ↦ rw h (any-find p rows)
]

or_other-some : (o q : Option TelemetryRow) → is_some o ≡ true → or_other o q ≡ o
or_other-some none q h = cc
or_other-some (some r) q h = refl

or_other-none : (o q : Option TelemetryRow) → is_some o ≡ false → or_other o q ≡ q
or_other-none none q h = refl
or_other-none (some r) q h = cc

-- Under the key of an event stands the row that was there, or else that of the first event of the
-- batch with this key.
insert_events-find :
    (b : Batch) (es : List TelemetryEvent) (r : TelemetryReceipt) (rows : List TelemetryRow)
    (id : String)
    → find (is_event b.deployment_id id) (insert_events b es r rows).1
      ≡ or_other
          (find (is_event b.deployment_id id) rows)
          (Option-map (telemetry_row b) (find (λ e. e.id === id) es))
unfolding insert_events is_event row_of
insert_events-find b [] r rows id = elim (Option-cases (find (is_event b.deployment_id id) rows)) [
  | inl h ↦ rw h refl
  | inr (x, h) ↦ rw h refl
]
insert_events-find b (e ∷ es) r rows id =
    let key = is_event b.deployment_id id in
    let old = find key rows in
    let rest = Option-map (telemetry_row b) (find (λ e. e.id === id) es) in
    elim (Bool-cases (any (is_event b.deployment_id e.id) rows)) [
      | inl k ↦
          let later =
            insert_events-find b es (record r { duplicates = suc r.duplicates }) rows id in
          elim (Bool-cases (e.id === id)) [
            | inr h ↦ rw (k, h) later
            | inl h ↦
                let same : e.id ≡ id = ===_eq e.id id h in
                let there : is_some old ≡ true = sym (any-find key rows) ∙ rw (← same) k in
                rw (k, h)
                  (later
                    ∙ or_other-some old rest there
                    ∙ sym (or_other-some old (some (telemetry_row b e)) there))
          ]
      | inr k ↦
          let later =
            insert_events-find b es (record r { accepted = suc r.accepted }) (row_of b e ∷ rows)
              id in
          elim (Bool-cases (e.id === id)) [
            | inr h ↦ rw (k, h) (rw (===_refl b.deployment_id, h) at later)
            | inl h ↦
                let same : e.id ≡ id = ===_eq e.id id h in
                let gone : is_some old ≡ false = sym (any-find key rows) ∙ rw (← same) k in
                rw (k, h)
                  ((rw (===_refl b.deployment_id, h) at later)
                    ∙ sym (or_other-none old (some (telemetry_row b e)) gone))
          ]
    ]

-- A batch that is ingested is counted in full: the accepted events and the duplicates are as many as
-- its events, and the rows that are retained grow by the accepted ones. Under each key of the
-- deployment stands afterwards the row that was retained, or else one with all data of the first
-- event of the batch with this key.
pub ingest_telemetry_batch_counts :
    (b : Batch) (s : TelemetryStore) (id : String) {r : TelemetryReceipt}
    → (ingest_telemetry_batch b s).0 ≡ some r
    → (r.accepted + r.duplicates ≡ length b.events)
      × (length (ingest_telemetry_batch b s).1.rows
          ≡ length (retained b.retention_before_ms s.rows) + r.accepted)
      × (find (is_event b.deployment_id id) (ingest_telemetry_batch b s).1.rows
          ≡ or_other
              (find (is_event b.deployment_id id) (retained b.retention_before_ms s.rows))
              (Option-map (telemetry_row b) (find (λ e. e.id === id) b.events)))
unfolding ingest_telemetry_batch
ingest_telemetry_batch_counts b s id {r} e =
    let live = live_nonces b.received_at_ms s.nonces in
    let start : TelemetryReceipt = record { accepted = 0; duplicates = 0 } in
    let rows = retained b.retention_before_ms s.rows in
    elim (Bool-cases (any (is_nonce b.deployment_id b.nonce) live)) [
      | inl h ↦ let impossible = rw h at e in cc
      | inr h ↦
          let same = some_inj.0 (rw h at e) in
          let k = insert_events-IsCounted b b.events start rows in
          let added = ap (λ q. q.accepted) same in
          let repeated = ap (λ q. q.duplicates) same in
          rw h (
            omega (arith, k.total, added, repeated),
            omega (arith, k.grown, added),
            insert_events-find b b.events start rows id,
          )
    ]
