-- ===== src/Audit/Stored.antt =====
-- That the hash of an event is the same before and after its row is stored.
use otto_control.Prelude.{ℕ, pos, some, String, true, ◌≡◌, sym, ap, ◌∙◌}
use otto_control.Audit.Canonical.{
  Json, integer, text, object, Entries, no_entry, entry, insert_entry, keep_entry, canonicalize,
  canonicalize_entries, Runtime, canonical_json,
}
use otto_control.Audit.Chain.{
  Content, hash_payload, audit_event_hash, stored_content, appended_event, chained_event,
}
use otto_control.Audit.Restored.{Restored, canonicalize-Restored, keep-defined, defined-Restored}

-- What the column gives back of a detail, whose keys the order of texts tells apart.
abbrev pub IsRestored : Runtime → Json → Type 0
IsRestored rt v = Restored rt.locale_before v (rt.read_back v)

abbrev pub IsTransitive : Runtime → Type 0
IsTransitive rt =
    (a b c : String)
    → rt.locale_before a b ≡ true
    → rt.locale_before b c ≡ true
    → rt.locale_before a c ≡ true

keep-Restored :
    (rt : Runtime) (k : String) (v : Json) (es : Entries)
    → IsTransitive rt
    → IsRestored rt v
    → keep_entry rt.locale_before k v (canonicalize rt.locale_before v) es
      ≡ keep_entry rt.locale_before k
          (rt.read_back v)
          (canonicalize rt.locale_before (rt.read_back v))
          es
keep-Restored rt k v es trans r =
    let (a, b) = defined-Restored rt.locale_before v (rt.read_back v) r in
    keep-defined rt.locale_before k v (canonicalize rt.locale_before v) es a
    ∙ ap (λ w. insert_entry rt.locale_before k w es)
        (canonicalize-Restored rt.locale_before trans v (rt.read_back v) r)
    ∙ sym (
        keep-defined rt.locale_before k (rt.read_back v)
          (canonicalize rt.locale_before (rt.read_back v)) es b)

-- The hash that was taken before an event was stored is that of what is read.
pub audit_event_hash-stored :
    (rt : Runtime) (n : ℕ) (h : String) (c : Content)
    → IsTransitive rt
    → IsRestored rt c.input.detail
    → audit_event_hash rt n h c ≡ audit_event_hash rt n h (stored_content rt c)
unfolding audit_event_hash hash_payload canonical_json canonicalize stored_content keep_entry
audit_event_hash-stored rt n h c trans r =
    let put = insert_entry rt.locale_before in
    ap
      (λ es. rt.sha256 (
        rt.stringify (
          object (
            put "version" (integer (pos 1)) (
              put "sequence" (integer (pos n)) (
                put "previousHash" (text h) (
                  put "actorId" (text c.input.actor_id) (
                    put "action" (text c.input.action) (
                      put "targetType" (text c.input.target_type)
                        (put "targetId" (text c.input.target_id) es))))))))))
      (keep-Restored rt "detail" c.input.detail
        (canonicalize_entries rt.locale_before
          (entry "createdAt" (text (rt.to_iso_string c.created_at)) no_entry))
        trans r)

-- So the row that an append leaves is one whose hash is that of its own content.
pub appended_event-chained :
    (rt : Runtime) (n : ℕ) (h : String) (c : Content)
    → IsTransitive rt
    → IsRestored rt c.input.detail
    → appended_event rt n h c ≡ chained_event rt n h (stored_content rt c)
unfolding appended_event chained_event
appended_event-chained rt n h c trans r =
    ap (λ t. record (appended_event rt n h c) { event_hash = some t })
      (audit_event_hash-stored rt n h c trans r)
