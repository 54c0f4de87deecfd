-- ===== src/Commerce/Content.antt =====
-- The bounded search for content against an unbounded one, and the receipts of telemetry.
use otto_control.Prelude.{
  ℕ, suc, ◌+◌, String, Bool, false, ltb, ◌||◌, if◌then◌else◌, ◌≡◌, ap, ◌∙◌, arith,
}
use otto_control.Audit.Canonical.{
  Json, undefined, null, boolean, integer, text, array, object, Items, no_item, item, Entries,
  no_entry, entry,
}
use otto_control.Commerce.Telemetry.{
  is_forbidden, telemetry_contains_content, items_contain_content, entries_contain_content,
}

abbrev pub max : ℕ → ℕ → ℕ
max a b = if ltb a b then b else a

-- Whether a forbidden key stands anywhere in a value, and how deep its deepest part lies.
unfoldable mutual
  pub mentions : (String → String) → Json → Bool
  mentions normal (array is) = mentions_items normal is
  mentions normal (object es) = mentions_entries normal es
  mentions normal v = false

  pub mentions_items : (String → String) → Items → Bool
  mentions_items normal no_item = false
  mentions_items normal (item v is) = mentions normal v || mentions_items normal is

  pub mentions_entries : (String → String) → Entries → Bool
  mentions_entries normal no_entry = false
  mentions_entries normal (entry k v es) =
      (is_forbidden normal k || mentions normal v) || mentions_entries normal es

unfoldable mutual
  pub depth : Json → ℕ
  depth (array is) = depth_items is
  depth (object es) = depth_entries es
  depth v = 0

  pub depth_items : Items → ℕ
  depth_items no_item = 0
  depth_items (item v is) = max (suc (depth v)) (depth_items is)

  pub depth_entries : Entries → ℕ
  depth_entries no_entry = 0
  depth_entries (entry k v es) = max (suc (depth v)) (depth_entries es)

-- One part of a value and the parts after it.
combine :
    (d e f : ℕ) (found rest named more : Bool)
    → found ≡ (ltb 8 (suc d + e) || named)
    → (ltb 8 d || rest) ≡ (ltb 8 (d + f) || more)
    → (ltb 8 d || (found || rest)) ≡ (ltb 8 (d + max (suc e) f) || (named || more))
combine d e f found rest named more a b = ground arith

with_key :
    (deep f contained mentioned : Bool)
    → contained ≡ (deep || mentioned)
    → (f || contained) ≡ (deep || (f || mentioned))
with_key deep f contained mentioned e = ground arith

leaf : (d : ℕ) → ltb 8 d ≡ (ltb 8 (d + 0) || false)
leaf d = ground arith

mutual
  unfolding telemetry_contains_content mentions depth

  contains_at :
      (normal : String → String) (d : ℕ) (v : Json)
      → telemetry_contains_content normal d v ≡ (ltb 8 (d + depth v) || mentions normal v)
  contains_at normal d (array is) = items_at normal d is
  contains_at normal d (object es) = entries_at normal d es
  contains_at normal d undefined = leaf d
  contains_at normal d null = leaf d
  contains_at normal d (boolean b) = leaf d
  contains_at normal d (integer z) = leaf d
  contains_at normal d (text t) = leaf d

  items_at :
      (normal : String → String) (d : ℕ) (is : Items)
      → (ltb 8 d || items_contain_content normal d is)
        ≡ (ltb 8 (d + depth_items is) || mentions_items normal is)
  items_at normal d no_item = ground arith
  items_at normal d (item v is) =
      combine d (depth v) (depth_items is) _ _ _ _ (contains_at normal (suc d) v)
        (items_at normal d is)

  entries_at :
      (normal : String → String) (d : ℕ) (es : Entries)
      → (ltb 8 d || entries_contain_content normal d es)
        ≡ (ltb 8 (d + depth_entries es) || mentions_entries normal es)
  entries_at normal d no_entry = ground arith
  entries_at normal d (entry k v es) =
      combine d (depth v) (depth_entries es) _ _ _ _
        (with_key _ (is_forbidden normal k) _ _ (contains_at normal (suc d) v))
        (entries_at normal d es)

-- A value passes the search exactly when it is at most eight levels deep and no forbidden key
-- stands anywhere in it, at whatever depth.
pub telemetry_contains_content_exact :
    (normal : String → String) (v : Json)
    → telemetry_contains_content normal 0 v ≡ (ltb 8 (depth v) || mentions normal v)
telemetry_contains_content_exact normal v =
    let same : 0 + depth v ≡ depth v = omega arith in
    contains_at normal 0 v ∙ ap (λ n. ltb 8 n || mentions normal v) same
