-- ===== src/Prelude/Sorts.antt =====
-- The stable sort of a list, and what filters, sorts and prefixes keep of it.
use Prim.Native.Nat.{ℕ, zero, suc, ◌+◌, ◌≤◌}
use mathlib.Core.Path.{◌≡◌, refl}
use mathlib.Core.Logic.{inl, inr}
use mathlib.Core.Bool.{Bool, true}
use mathlib.Core.List.{List, [], ◌∷◌}
use native.Mathlib.Omega.{arith}
use otto_control.Prelude.Tests.{Bool-cases, if◌then◌else◌}
use otto_control.Prelude.Lists.{select, total, All, take}

module _ {ℓ} {A : Type ℓ} where
  -- Equal entries keep their order: an entry passes those that stand strictly before it.
  abbrev pub insert_by : (A → A → Bool) → A → List A → List A
  insert_by before x [] = x ∷ []
  insert_by before x (y ∷ ys) =
      let rest = insert_by before x ys in if before y x then y ∷ rest else x ∷ y ∷ ys

  abbrev pub sort_by : (A → A → Bool) → List A → List A
  sort_by before [] = []
  sort_by before (x ∷ xs) = insert_by before x (sort_by before xs)

  total-insert_by :
      (f : A → ℕ) (before : A → A → Bool) (x : A) (xs : List A)
      → total f (insert_by before x xs) ≡ f x + total f xs
  total-insert_by f before x [] = refl
  total-insert_by f before x (y ∷ ys) = elim (Bool-cases (before y x)) [
    | inl h ↦ rw h (omega (arith, total-insert_by f before x ys))
    | inr h ↦ rw h refl
  ]

  pub total-sort_by :
      (f : A → ℕ) (before : A → A → Bool) (xs : List A) → total f (sort_by before xs) ≡ total f xs
  total-sort_by f before [] = refl
  total-sort_by f before (x ∷ xs) =
      omega (arith, total-insert_by f before x (sort_by before xs), total-sort_by f before xs)

  pub total-select : (f : A → ℕ) (p : A → Bool) (xs : List A) → total f (select p xs) ≤ total f xs
  total-select f p [] = omega arith
  total-select f p (x ∷ xs) = elim (Bool-cases (p x)) [
    | inl h ↦ rw h (omega (arith, total-select f p xs))
    | inr h ↦ rw h (omega (arith, total-select f p xs))
  ]

  pub total-take : (f : A → ℕ) (n : ℕ) (xs : List A) → total f (take n xs) ≤ total f xs
  total-take f zero xs = omega arith
  total-take f (suc n) [] = omega arith
  total-take f (suc n) (x ∷ xs) = omega (arith, total-take f n xs)

  module _ {κ} (P : A → Type κ) where
    All-insert_by :
        (before : A → A → Bool) (x : A) (xs : List A)
        → P x
        → All P xs
        → All P (insert_by before x xs)
    All-insert_by before x [] p a = (p, tt)
    All-insert_by before x (y ∷ ys) p a = elim (Bool-cases (before y x)) [
      | inl h ↦ rw h (a.0, All-insert_by before x ys p a.1)
      | inr h ↦ rw h (p, a)
    ]

    pub All-sort_by : (before : A → A → Bool) (xs : List A) → All P xs → All P (sort_by before xs)
    All-sort_by before [] a = tt
    All-sort_by before (x ∷ xs) a =
        All-insert_by before x (sort_by before xs) a.0 (All-sort_by before xs a.1)

    pub All-take : (n : ℕ) (xs : List A) → All P xs → All P (take n xs)
    All-take zero xs a = tt
    All-take (suc n) [] a = tt
    All-take (suc n) (x ∷ xs) a = (a.0, All-take n xs a.1)

    -- What a filter keeps passes its test.
    pub All-select_sound :
        (p : A → Bool) (xs : List A) → ((x : A) → p x ≡ true → P x) → All P (select p xs)
    All-select_sound p [] h = tt
    All-select_sound p (x ∷ xs) h = elim (Bool-cases (p x)) [
      | inl e ↦ rw e (h x e, All-select_sound p xs h)
      | inr e ↦ rw e (All-select_sound p xs h)
    ]

    -- The same, of a list whose entries satisfy something already.
    pub All-select_from {μ} :
        (Q : A → Type μ) (p : A → Bool) (xs : List A)
        → All Q xs
        → ((x : A) → Q x → p x ≡ true → P x)
        → All P (select p xs)
    All-select_from Q p [] a h = tt
    All-select_from Q p (x ∷ xs) a h = elim (Bool-cases (p x)) [
      | inl e ↦ rw e (h x a.0 e, All-select_from Q p xs a.1 h)
      | inr e ↦ rw e (All-select_from Q p xs a.1 h)
    ]
