-- ===== src/Prelude/Counts.antt =====
-- How often a key stands in a map, and the sums over its values.
use Prim.Native.Nat.{ℕ, ◌+◌, ◌≤◌}
use Prim.Native.String.{String}
use mathlib.Core.Path.{◌≡◌, refl, sym, subst}
use mathlib.Core.Logic.{inl, inr}
use mathlib.Core.Bool.{Bool, true, false, not, ◌&&◌}
use mathlib.Core.List.{[], ◌∷◌}
use mathlib.Core.Option.{none, some}
use native.Mathlib.Omega.{arith}
use otto_control.Prelude.Tests.{Bool-cases}
use otto_control.Prelude.Lists.{total, find}
use otto_control.Prelude.Text.{◌===◌, ===_eq, ===_refl}
use otto_control.Prelude.Maps.{Map, count, get, one_if, set, update}

module _ {ℓ} {V : Type ℓ} where
  pub count-set_other :
      (j k : String) (v : V) (m : Map V) → (k === j) ≡ false → count j (set k v m) ≡ count j m
  count-set_other j k v [] other = rw other refl
  count-set_other j k v (e ∷ m) other = elim (Bool-cases (e.0 === k)) [
    | inl h ↦ let same : e.0 ≡ k = ===_eq e.0 k h in rw (h, same) refl
    | inr h ↦ rw (h, count-set_other j k v m other) refl
  ]

  pub count-set_same : (k : String) (v : V) (m : Map V) → count k m ≤ 1 → count k (set k v m) ≤ 1
  count-set_same k v [] few = rw (===_refl k) (omega arith)
  count-set_same k v (e ∷ m) few = elim (Bool-cases (e.0 === k)) [
    | inl h ↦ let few1 = rw h at few in rw (h, ===_refl k) few1
    | inr h ↦
        let few1 = rw h at few in
        rw (h, h) (omega (arith, count-set_same k v m (omega (arith, few1))))
  ]

  pub count-set : (j k : String) (v : V) (m : Map V) → count j m ≤ 1 → count j (set k v m) ≤ 1
  count-set j k v m few = elim (Bool-cases (k === j)) [
    | inl h ↦
        let same : k ≡ j = ===_eq k j h in
        subst (λ i. count j (set i v m) ≤ 1) (sym same) (count-set_same j v m few)
    | inr h ↦ rw (count-set_other j k v m h) few
  ]

  pub count-update : (f : V → V) (k : String) (m : Map V) → count k (update f m) ≡ count k m
  count-update f k [] = refl
  count-update f k (e ∷ m) = rw (count-update f k m) refl

  -- An assignment to a key that is there exchanges one value for another.
  pub total-set :
      (f : V → ℕ) (k : String) (v : V) (m : Map V) {old : V}
      → get k m ≡ some old
      → total (λ e. f e.1) (set k v m) + f old ≡ total (λ e. f e.1) m + f v
  total-set f k v [] {old} e = absurd (ground (arith, e))
  total-set f k v (x ∷ m) {old} e = elim (Bool-cases (x.0 === k)) [
    | inl h ↦ let same : x.1 ≡ old = cc (rw h at e) in rw (h, ← same) (omega arith)
    | inr h ↦ rw h (omega (arith, total-set f k v m {old = old} (rw h at e)))
  ]

  get-find_count : (k : String) (m : Map V) → count k m ≡ 0 → get k m ≡ none
  get-find_count k [] few = refl
  get-find_count k (x ∷ m) few = elim (Bool-cases (x.0 === k)) [
    | inl h ↦ absurd (omega (arith, rw h at few))
    | inr h ↦ rw h (get-find_count k m (omega (arith, rw h at few)))
  ]

  -- An entry that a search finds is the one that its key looks up.
  pub get-find :
      (p : String × V → Bool) (m : Map V) {e : String × V}
      → count e.0 m ≤ 1
      → find p m ≡ some e
      → get e.0 m ≡ some e.1
  get-find p [] {e} few found = absurd (ground (arith, found))
  get-find p (x ∷ m) {e} few found = elim (Bool-cases (p x)) [
    | inl h ↦ let same : x ≡ e = cc (rw h at found) in rw (← same, ===_refl x.0) refl
    | inr h ↦
        let rest = get-find p m {e = e} (omega (arith, few)) (rw h at found) in
        elim (Bool-cases (x.0 === e.0)) [
          | inr other ↦ rw other rest
          | inl same ↦
              let few1 : one_if true + count e.0 m ≤ 1 = rw same at few in
              absurd (ground (arith, rest, get-find_count e.0 m (omega (arith, few1))))
        ]
  ]

  -- Where a search for others than one key finds nothing, that key's value is all there is.
  pub total_only :
      (f : V → Bool) (k : String) (m : Map V) {v : V}
      → count k m ≤ 1
      → get k m ≡ some v
      → find (λ e. f e.1 && not (e.0 === k)) m ≡ none
      → total (λ e. one_if (f e.1)) m ≡ one_if (f v)
  total_only f k [] {v} few there alone = absurd (ground (arith, there))
  total_only f k (x ∷ m) {v} few there alone = elim (Bool-cases (x.0 === k)) [
    | inl h ↦
        let same : x.1 ≡ v = cc (rw h at there) in
        let few1 : one_if true + count k m ≤ 1 = rw h at few in
        let rest = total_none f k m (omega (arith, few1)) (ground (arith, rw h at alone)) in
        rw (← same) (omega (arith, rest))
    | inr h ↦ elim (Bool-cases (f x.1)) [
      | inl q ↦ absurd (ground (arith, rw (h, q) at alone))
      | inr q ↦ rw q (
          omega (
            arith,
            total_only f k m {v = v} (omega (arith, rw h at few)) (rw h at there)
                (rw (h, q) at alone),
          ))
    ]
  ]
    where
      total_none :
          (f : V → Bool) (k : String) (m : Map V)
          → count k m ≡ 0
          → find (λ e. f e.1 && not (e.0 === k)) m ≡ none
          → total (λ e. one_if (f e.1)) m ≡ 0
      total_none f k [] few alone = refl
      total_none f k (x ∷ m) few alone = elim (Bool-cases (x.0 === k)) [
        | inl h ↦ absurd (omega (arith, rw h at few))
        | inr h ↦ elim (Bool-cases (f x.1)) [
          | inl q ↦ absurd (ground (arith, rw (h, q) at alone))
          | inr q ↦
              rw q
                (omega (arith, total_none f k m (omega (arith, rw h at few)) (rw (h, q) at alone)))
        ]
      ]

  pub le-total-get :
      (f : V → ℕ) (k : String) (m : Map V) {v : V} → get k m ≡ some v → f v ≤ total (λ e. f e.1) m
  le-total-get f k [] {v} e = absurd (ground (arith, e))
  le-total-get f k (x ∷ m) {v} e = elim (Bool-cases (x.0 === k)) [
    | inl h ↦ let same : x.1 ≡ v = cc (rw h at e) in rw (← same) (omega arith)
    | inr h ↦ omega (arith, le-total-get f k m {v = v} (rw h at e))
  ]
