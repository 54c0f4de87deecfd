-- ===== src/Audit/Tests.antt =====
-- Runs of the audit chain, and instances of its theorems.
use otto_control.Prelude.{
  ℕ, Bool, ◌&&◌, not, arith, String, ◌===◌, true, false, none, some, List, [], ◌∷◌, ◌≡◌, refl, ◌⊎◌,
  Bool-cases, inl, inr, if◌then◌else◌,
}
use otto_control.Audit.Chain.{
  audit_event_hash, is_legacy, Event, EventInput, Content, AuditStore, genesis_hash, hash_payload,
  append_chained,
}
use otto_control.Audit.Canonical.{
  insert_entry, keep_entry, Json, Entries, Runtime, no_entry, entry, text, object, null, undefined,
  boolean, integer, array, canonical_json, canonicalize,
}
use otto_control.Audit.Verify.{Receipt, verify}
use otto_control.Audit.Accepted.{append_all, migrated, verify-append_all}
use otto_control.Audit.Terminates.{verify_terminates}
use otto_control.Audit.Restored.{Restored}
use otto_control.Audit.Stored.{IsRestored, IsTransitive}
use otto_control.Audit.Linked.{IsVerified}
use otto_control.Audit.Tampered.{Collision, texts, tampering_collides, hashed_text}

abbrev text_of : Json → String
text_of (text t) = t
text_of _ = "{}"

-- The first of the entries that holds a text and is named previousHash.
abbrev find_previous : Entries → String
find_previous no_entry = ""
find_previous (entry k v es) =
    let rest = find_previous es in if k === "previousHash" then text_of v else rest

abbrev print_previous : Json → String
print_previous (object es) = find_previous es
print_previous _ = ""

abbrev hash_length : String → String
hash_length t = if t === genesis_hash then "first" else "later"

abbrev toy : Runtime
toy = record {
  sha256 = hash_length;
  stringify = print_previous;
  locale_before = λ a b. false;
  to_iso_string = λ n. "1970-01-01T00:00:00.000Z";
  read_back = λ v. v;
}

abbrev login : EventInput
login = record {
  actor_id = "admin";
  action = "admin.login";
  target_type = "account";
  target_id = "a1";
  detail = object no_entry;
}

abbrev older : Event
older = record {
  content = record { input = login; created_at = 1 };
  chain_sequence = none;
  previous_hash = none;
  event_hash = none;
}

abbrev two : List (EventInput × ℕ)
two = (login, 5) ∷ (login, 7) ∷ []

abbrev shop : AuditStore
shop = append_all toy two (migrated (older ∷ []))

toy_named : (t : String) → (toy.sha256 t === "") ≡ false
toy_named t = elim (Bool-cases (t === genesis_hash)) [ inl h ↦ rw h refl | inr h ↦ rw h refl ]

-- A column that gives the first two keys of an object back in the other order.
abbrev swap : Json → Json
swap (object (entry k v (entry j w es))) = object (entry j w (entry k v es))
swap v = v

abbrev a_first : String → String → Bool
a_first s t = s === "a" && not (t === "a")

abbrev swapping : Runtime
swapping = record toy { locale_before = a_first; read_back = swap }

swapping-IsTransitive : IsTransitive swapping
swapping-IsTransitive a b c h g = ground (arith, h, g)

abbrev issue : EventInput
issue = record login { detail = object (entry "b" (boolean true) (entry "a" (text "x") no_entry)) }

issue-IsRestored : IsRestored swapping issue.detail
unfolding Restored
issue-IsRestored = inr (
  refl,
  (boolean true, entry "a" (text "x") no_entry),
  refl,
  refl,
  inr (refl, (text "x", no_entry), refl, refl, refl, inl refl),
  inr (no_entry, refl, refl, inl refl),
)

verify-append_all_example :
    (r : Receipt) × (verify swapping
        (append_all swapping ((issue, 5) ∷ (issue, 7) ∷ []) (migrated (older ∷ [])))
      ≡ some r)
    × (r.valid ≡ true)
    × (r.checked_events ≡ 2)
unfolding is_legacy
verify-append_all_example =
    verify-append_all swapping (older ∷ []) ((issue, 5) ∷ (issue, 7) ∷ []) toy_named
      swapping-IsTransitive (issue-IsRestored, (issue-IsRestored, tt)) (refl, tt)

toy-IsTransitive : IsTransitive toy
toy-IsTransitive a b c h g = h

login-IsRestored : IsRestored toy login.detail
unfolding Restored
login-IsRestored = refl

verify_terminates_example : (r : Receipt) × (verify toy shop ≡ some r)
verify_terminates_example = verify_terminates toy shop

-- The detail is no text, so that the toy printer passes over it whatever it is.
abbrev payload_text : ℕ → String → ℕ → EventInput → String
payload_text n h at i = hashed_text toy n h (record { input = i; created_at = at })

recovers_detail :
    (n : ℕ) (h : String) (at : ℕ) (a b c d : String) (detail : Json)
    → payload_text n h at
        (record { actor_id = a; action = b; target_type = c; target_id = d; detail = detail })
      ≡ h
unfolding canonical_json canonicalize hash_payload keep_entry insert_entry
recovers_detail n h at a b c d undefined = refl
recovers_detail n h at a b c d null = refl
recovers_detail n h at a b c d (boolean x) = refl
recovers_detail n h at a b c d (integer x) = refl
recovers_detail n h at a b c d (text x) = refl
recovers_detail n h at a b c d (array x) = refl
recovers_detail n h at a b c d (object x) = refl

abbrev itself : String → String
itself t = t

toy_recovers : (n : ℕ) (h : String) (c : Content) → itself (hashed_text toy n h c) ≡ h
toy_recovers n h c =
    recovers_detail n h c.created_at c.input.actor_id c.input.action c.input.target_type
      c.input.target_id c.input.detail

shop_receipt :
    (r : Receipt) × (verify toy shop ≡ some r) × (r.valid ≡ true) × (r.checked_events ≡ 2)
unfolding is_legacy
shop_receipt =
    verify-append_all toy (older ∷ []) two toy_named toy-IsTransitive
      (login-IsRestored, (login-IsRestored, tt)) (refl, tt)

-- Another history of two events, which this hash does not tell from the first.
abbrev forged : AuditStore
forged = append_all toy ((login, 5) ∷ (login, 8) ∷ []) (migrated [])

forged_receipt :
    (r : Receipt) × (verify toy forged ≡ some r) × (r.valid ≡ true) × (r.checked_events ≡ 2)
forged_receipt =
    verify-append_all toy [] ((login, 5) ∷ (login, 8) ∷ []) toy_named toy-IsTransitive
      (login-IsRestored, (login-IsRestored, tt)) tt

tampering_collides_example :
    ((v : IsVerified toy shop) × (w : IsVerified toy forged) × (texts toy 1 genesis_hash v.events
        ≡ texts toy 1 genesis_hash w.events))
    ⊎ Collision toy
unfolding append_chained audit_event_hash hash_payload
tampering_collides_example =
    tampering_collides toy itself toy_recovers shop forged shop_receipt.1 shop_receipt.2
      forged_receipt.1 forged_receipt.2 refl refl
