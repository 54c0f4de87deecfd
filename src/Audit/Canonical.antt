-- ===== src/Audit/Canonical.antt =====
-- `canonicalize` and `canonicalJson` of src/crypto/signed-envelope.ts.
use otto_control.Prelude.{ℕ, String, Bool, if◌then◌else◌, ℤ}

-- The values that the payloads hold. An object is the list of its entries in the order of
-- `Object.entries`, which for keys that are no array indices is the order of their insertion.
mutual
  pub data Json : Type 0 where
    undefined null : Json
    boolean : Bool → Json
    integer : ℤ → Json
    text : String → Json
    array : Items → Json
    object : Entries → Json

  pub data Items : Type 0 where
    no_item : Items
    item : Json → Items → Items

  pub data Entries : Type 0 where
    no_entry : Entries
    entry : String → Json → Entries → Entries

-- The stable sort of the entries by their keys, one entry at a time.
unfoldable pub insert_entry : (String → String → Bool) → String → Json → Entries → Entries
insert_entry before k v no_entry = entry k v no_entry
insert_entry before k v (entry j w es) =
    let rest = insert_entry before k v es in
    if before j k then entry j w rest else entry k v (entry j w es)

-- An entry that is undefined is left out. The sort reads keys only, so that it commutes with the
-- change of the values.
unfoldable pub keep_entry : (String → String → Bool) → String → Json → Json → Entries → Entries
keep_entry before k undefined v es = es
keep_entry before k _ v es = insert_entry before k v es

-- `locale_before a b` is a.localeCompare(b) < 0.
unfoldable mutual
  pub canonicalize : (String → String → Bool) → Json → Json
  canonicalize locale_before (array is) = array (canonicalize_items locale_before is)
  canonicalize locale_before (object es) = object (canonicalize_entries locale_before es)
  canonicalize locale_before v = v

  pub canonicalize_items : (String → String → Bool) → Items → Items
  canonicalize_items locale_before no_item = no_item
  canonicalize_items locale_before (item v is) =
      item (canonicalize locale_before v) (canonicalize_items locale_before is)

  pub canonicalize_entries : (String → String → Bool) → Entries → Entries
  canonicalize_entries locale_before no_entry = no_entry
  canonicalize_entries locale_before (entry k v es) =
      keep_entry locale_before k v (canonicalize locale_before v)
        (canonicalize_entries locale_before es)

-- What the platform gives: `createHash('sha256')` in hexadecimal, `JSON.stringify`,
-- `localeCompare` and `toISOString`; and what is read back of a value that was printed by
-- `JSON.stringify` into a column of type JSONB.
pub record Runtime : Type 0 where
  pub sha256 : String → String
  pub stringify : Json → String
  pub locale_before : String → String → Bool
  pub to_iso_string : ℕ → String
  pub read_back : Json → Json

unfoldable pub canonical_json : Runtime → Json → String
canonical_json rt v = rt.stringify (canonicalize rt.locale_before v)
