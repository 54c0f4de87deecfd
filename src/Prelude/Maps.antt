-- ===== src/Prelude/Maps.antt =====
-- `Map` of JavaScript: entries in the order of their first insertion, and the stable sort of a list.
use Prim.Native.Nat.{ℕ}
use Prim.Native.String.{String}
use mathlib.Core.Path.{◌≡◌, refl}
use mathlib.Core.Logic.{inl, inr}
use mathlib.Core.Bool.{Bool, true, false, not}
use mathlib.Core.List.{List, [], ◌∷◌, map}
use mathlib.Core.Option.{Option, none, some}
use native.Mathlib.Omega.{arith}
use otto_control.Prelude.Tests.{Bool-cases, if◌then◌else◌}
use otto_control.Prelude.Lists.{select, total, All}
use otto_control.Prelude.Text.{◌===◌, ===_eq, ===_refl}

abbrev pub Map {ℓ} : Type ℓ → Type ℓ
Map V = List (String × V)

abbrev pub Option-map {ℓ κ} : {A : Type ℓ} {B : Type κ} → (A → B) → Option A → Option B
Option-map f none = none
Option-map f (some a) = some (f a)

abbrev pub is_some {ℓ} : {A : Type ℓ} → Option A → Bool
is_some none = false
is_some (some a) = true

-- How often a key stands in a map: at most once in any that `set` and `delete` have made.
abbrev pub one_if : Bool → ℕ
one_if b = if b then 1 else 0

module _ {ℓ} {V : Type ℓ} where
  abbrev pub get : String → Map V → Option V
  get k [] = none
  get k (e ∷ m) = let rest = get k m in if e.0 === k then some e.1 else rest

  abbrev pub has : String → Map V → Bool
  has k m = is_some (get k m)

  abbrev pub set : String → V → Map V → Map V
  set k v [] = (k, v) ∷ []
  set k v (e ∷ m) = let rest = set k v m in if e.0 === k then (k, v) ∷ m else e ∷ rest

  abbrev pub delete : String → Map V → Map V
  delete k m = select (λ e. not (e.0 === k)) m

  -- An assignment to the values that a loop over `values()` reaches.
  abbrev pub update : (V → V) → Map V → Map V
  update f m = map (λ e. (e.0, f e.1)) m

  abbrev pub values : Map V → List V
  values m = map (λ e. e.1) m

  abbrev pub count : String → Map V → ℕ
  count k m = total (λ e. one_if (e.0 === k)) m

  pub get-set : (k : String) (v : V) (m : Map V) → get k (set k v m) ≡ some v
  get-set k v [] = rw (===_refl k) refl
  get-set k v (e ∷ m) = elim (Bool-cases (e.0 === k)) [
    | inl h ↦ rw (h, ===_refl k) refl
    | inr h ↦ rw (h, h, get-set k v m) refl
  ]

  pub get-set_other :
      (j k : String) (v : V) (m : Map V) → (k === j) ≡ false → get j (set k v m) ≡ get j m
  get-set_other j k v [] other = rw other refl
  get-set_other j k v (e ∷ m) other = elim (Bool-cases (e.0 === k)) [
    | inl h ↦ let same : e.0 ≡ k = ===_eq e.0 k h in rw (h, same, other) refl
    | inr h ↦ rw (h, get-set_other j k v m other) refl
  ]

  pub get-update :
      (f : V → V) (k : String) (m : Map V) → get k (update f m) ≡ Option-map f (get k m)
  get-update f k [] = refl
  get-update f k (e ∷ m) = ground (arith, get-update f k m)

  pub All-set {κ} :
      (P : String × V → Type κ) (k : String) (v : V) (m : Map V)
      → P (k, v)
      → All P m
      → All P (set k v m)
  All-set P k v [] p a = (p, tt)
  All-set P k v (e ∷ m) p a = elim (Bool-cases (e.0 === k)) [
    | inl h ↦ rw h (p, a.1)
    | inr h ↦ rw h (a.0, All-set P k v m p a.1)
  ]

  pub All-get {κ} :
      (P : String × V → Type κ) (k : String) (m : Map V) {v : V}
      → All P m
      → get k m ≡ some v
      → P (k, v)
  All-get P k [] a e = absurd (ground arith)
  All-get P k (x ∷ m) {v} a e = elim (Bool-cases (x.0 === k)) [
    | inl h ↦
        let same : x.1 ≡ v = cc (rw h at e) in
        let key : x.0 ≡ k = ===_eq x.0 k h in rw (← same, ← key) a.0
    | inr h ↦ All-get P k m a.1 (rw h at e)
  ]

  pub All-update {κ} :
      (P : String × V → Type κ) (f : V → V) (m : Map V)
      → ((e : String × V) → P e → P (e.0, f e.1))
      → All P m
      → All P (update f m)
  All-update P f [] h a = tt
  All-update P f (e ∷ m) h a = (h e a.0, All-update P f m h a.1)

  pub All-select {κ} :
      (P : String × V → Type κ) (p : String × V → Bool) (m : Map V) → All P m → All P (select p m)
  All-select P p [] a = tt
  All-select P p (e ∷ m) a = elim (Bool-cases (p e)) [
    | inl h ↦ rw h (a.0, All-select P p m a.1)
    | inr h ↦ rw h (All-select P p m a.1)
  ]
