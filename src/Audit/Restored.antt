-- ===== src/Audit/Restored.antt =====
-- What a column of type JSONB keeps of a value, and that the canonical form does not tell the
-- value that is read back from the one that was stored.
use otto_control.Prelude.{
  String, Bool, true, false, not, Bool-cases, inl, inr, ◌≡◌, ◌⊎◌, refl, sym, ap, ◌∙◌,
}
use otto_control.Audit.Canonical.{
  Json, undefined, null, boolean, integer, text, array, object, Items, no_item, item, Entries,
  no_entry, entry, insert_entry, keep_entry, canonicalize, canonicalize_items, canonicalize_entries,
}

abbrev pub is_undefined : Json → Bool
is_undefined undefined = true
is_undefined v = false

keep-undefined :
    (b : String → String → Bool) (k : String) (u v : Json) (es : Entries)
    → is_undefined u ≡ true
    → keep_entry b k u v es ≡ es
unfolding keep_entry
keep-undefined b k undefined v es h = refl
keep-undefined b k null v es h = cc
keep-undefined b k (boolean x) v es h = cc
keep-undefined b k (integer x) v es h = cc
keep-undefined b k (text x) v es h = cc
keep-undefined b k (array x) v es h = cc
keep-undefined b k (object x) v es h = cc

pub keep-defined :
    (b : String → String → Bool) (k : String) (u v : Json) (es : Entries)
    → is_undefined u ≡ false
    → keep_entry b k u v es ≡ insert_entry b k v es
unfolding keep_entry
keep-defined b k undefined v es h = cc
keep-defined b k null v es h = refl
keep-defined b k (boolean x) v es h = refl
keep-defined b k (integer x) v es h = refl
keep-defined b k (text x) v es h = refl
keep-defined b k (array x) v es h = refl
keep-defined b k (object x) v es h = refl

module _ (before : String → String → Bool) where
  -- Two keys that the order tells apart.
  abbrev pub IsApart : String → String → Type 0
  IsApart k j = before j k ≡ not (before k j)

  -- The entries gs are fs with one more entry, in some place among keys that differ from its own.
  abbrev pub IsPlaced : String → Json → Entries → Entries → Type 0
  IsPlaced k w fs no_entry = ⊥
  IsPlaced k w fs (entry j u gs) =
      (entry j u gs ≡ entry k w fs)
      ⊎ ((rest : Entries) × (fs ≡ entry j u rest) × IsApart k j × IsPlaced k w rest gs)

  -- Leaves are kept, arrays item by item; of an object the entries that are undefined are dropped
  -- and the others stand in any order.
  unfoldable mutual
    pub Restored : Json → Json → Type 0
    Restored null null = Unit
    Restored (boolean a) (boolean b) = a ≡ b
    Restored (integer m) (integer n) = m ≡ n
    Restored (text s) (text t) = s ≡ t
    Restored (array is) (array js) = RestoredItems is js
    Restored (object es) (object fs) = RestoredEntries es fs
    Restored v w = ⊥

    pub RestoredItems : Items → Items → Type 0
    RestoredItems no_item no_item = Unit
    RestoredItems (item v is) (item w js) = Restored v w × RestoredItems is js
    RestoredItems is js = ⊥

    pub RestoredEntries : Entries → Entries → Type 0
    RestoredEntries no_entry gs = gs ≡ no_entry
    RestoredEntries (entry k v es) gs =
        ((is_undefined v ≡ true) × RestoredEntries es gs)
        ⊎ ((is_undefined v ≡ false)
            × (p : Json × Entries) × (is_undefined p.0 ≡ false)
            × Restored v p.0
            × RestoredEntries es p.1
            × IsPlaced k p.0 p.1 gs)

  module _
      (before_trans : (a b c : String)
        → before a b ≡ true
        → before b c ≡ true
        → before a c ≡ true) where
    insert_ahead :
        (k j : String) (v w : Json) (es : Entries)
        → before k j ≡ true
        → before j k ≡ false
        → insert_entry before k v (insert_entry before j w es)
          ≡ insert_entry before j w (insert_entry before k v es)
    unfolding insert_entry
    insert_ahead k j v w no_entry a b = rw (a, b) refl
    insert_ahead k j v w (entry x u es) a b = elim (Bool-cases (before x k)) [
      | inl h ↦
          let past = before_trans x k j h a in
          rw (h, past, insert_entry, h) (ap (entry x u) (insert_ahead k j v w es a b))
      | inr h ↦ elim (Bool-cases (before x j)) [
        | inl g ↦ rw (h, g, insert_entry, h, a) refl
        | inr g ↦ rw (h, g, insert_entry, a, b) refl
      ]
    ]

    insert-insert :
        (k j : String) (v w : Json) (es : Entries)
        → IsApart k j
        → insert_entry before k v (insert_entry before j w es)
          ≡ insert_entry before j w (insert_entry before k v es)
    insert-insert k j v w es apart = elim (Bool-cases (before k j)) [
      | inl h ↦ insert_ahead k j v w es h (rw h at apart)
      | inr h ↦ sym (insert_ahead j k w v es (rw h at apart) h)
    ]

    -- One entry more, wherever it stands, is one more to be sorted.
    canonicalize-IsPlaced :
        (k : String) (w : Json) (fs gs : Entries)
        → is_undefined w ≡ false
        → IsPlaced k w fs gs
        → canonicalize_entries before gs
          ≡ insert_entry before k (canonicalize before w) (canonicalize_entries before fs)
    unfolding canonicalize_entries
    canonicalize-IsPlaced k w fs no_entry there p = absurd p
    canonicalize-IsPlaced k w fs (entry j u gs) there (inl e) =
        ap (canonicalize_entries before) e
        ∙ keep-defined before k w (canonicalize before w) (canonicalize_entries before fs) there
    canonicalize-IsPlaced k w fs (entry j u gs) there (inr (rest, e, apart, p)) =
        let later = canonicalize-IsPlaced k w rest gs there p in
        elim (Bool-cases (is_undefined u)) [
          | inl h ↦ rw e (
              keep-undefined before j u (canonicalize before u) (canonicalize_entries before gs) h
              ∙ later
              ∙ ap (insert_entry before k (canonicalize before w)) (
                  sym (
                    keep-undefined before j u (canonicalize before u)
                      (canonicalize_entries before rest) h)))
          | inr h ↦ rw e (
              keep-defined before j u (canonicalize before u) (canonicalize_entries before gs) h
              ∙ ap (insert_entry before j (canonicalize before u)) later
              ∙ sym (
                  insert-insert k j (canonicalize before w) (canonicalize before u)
                    (canonicalize_entries before rest) apart)
              ∙ ap (insert_entry before k (canonicalize before w)) (
                  sym (
                    keep-defined before j u (canonicalize before u)
                      (canonicalize_entries before rest) h)))
        ]

    mutual
      unfolding canonicalize canonicalize_items canonicalize_entries Restored RestoredItems
          RestoredEntries

      pub canonicalize-Restored :
          (v w : Json) → Restored v w → canonicalize before v ≡ canonicalize before w
      canonicalize-Restored null null r = refl
      canonicalize-Restored (boolean a) (boolean b) r = ap boolean r
      canonicalize-Restored (integer m) (integer n) r = ap integer r
      canonicalize-Restored (text s) (text t) r = ap text r
      canonicalize-Restored (array is) (array js) r = ap array (items-Restored is js r)
      canonicalize-Restored (object es) (object fs) r = ap object (entries-Restored es fs r)
      canonicalize-Restored v w r = absurd r

      items-Restored :
          (is js : Items)
          → RestoredItems is js
          → canonicalize_items before is ≡ canonicalize_items before js
      items-Restored no_item no_item r = refl
      items-Restored (item v is) (item w js) (r, rs) =
          rw (canonicalize-Restored v w r, items-Restored is js rs) refl
      items-Restored is js r = absurd r

      entries-Restored :
          (es gs : Entries)
          → RestoredEntries es gs
          → canonicalize_entries before es ≡ canonicalize_entries before gs
      entries-Restored no_entry gs r = ap (canonicalize_entries before) (sym r)
      entries-Restored (entry k v es) gs (inl (gone, r)) =
          keep-undefined before k v (canonicalize before v) (canonicalize_entries before es) gone
          ∙ entries-Restored es gs r
      entries-Restored (entry k v es) gs (inr (kept, (w, fs), there, r, rs, placed)) =
          keep-defined before k v (canonicalize before v) (canonicalize_entries before es) kept
          ∙ rw (canonicalize-Restored v w r, entries-Restored es fs rs)
              (sym (canonicalize-IsPlaced k w fs gs there placed))

  pub defined-Restored :
      (v w : Json) → Restored v w → (is_undefined v ≡ false) × (is_undefined w ≡ false)
  unfolding Restored
  defined-Restored null null r = (refl, refl)
  defined-Restored (boolean a) (boolean b) r = (refl, refl)
  defined-Restored (integer m) (integer n) r = (refl, refl)
  defined-Restored (text s) (text t) r = (refl, refl)
  defined-Restored (array is) (array js) r = (refl, refl)
  defined-Restored (object es) (object fs) r = (refl, refl)
  defined-Restored v w r = absurd r
