-- ===== src/Policy/Order.antt =====
-- The comparison of versions is antisymmetric.
use otto_control.Prelude.{
  suc, ◌-◌, String, ◌===◌, ===_eq, ===_refl, ◌==◌, Bool, true, false, Bool-cases, inl, inr, not,
  if◌then◌else◌, Option, none, some, List, [], All, ◌∷◌, ℤ, pos, negsuc, ◌≡◌, refl, ap, ◌∙◌, arith,
}
use mathlib.Core.Option.{some_inj}
use otto_control.Policy.Versions.{
  Grammar, Semver, parse_semver, is_same, Number, finite, infinite, is_equal, compare_unequal,
  compare_difference, compare_parts, compare_prereleases, compare_tails, compare_parsed,
  compare_opt, compare_versions,
}

-- -c, for the results of a comparison.
abbrev pub negate : ℤ → ℤ
negate (negsuc n) = pos (suc n)
negate (pos n) = if n == 0 then pos 0 else negsuc (n - 1)

is_equal-swap : (a b : Number) → is_equal b a ≡ is_equal a b
unfolding is_equal
is_equal-swap (finite a) (finite b) = ground arith
is_equal-swap (finite a) infinite = refl
is_equal-swap infinite (finite b) = refl
is_equal-swap infinite infinite = refl

flip_unequal :
    (a b : Number) → is_equal a b ≡ false → compare_unequal b a ≡ negate (compare_unequal a b)
unfolding is_equal compare_unequal
flip_unequal (finite a) (finite b) h = ground arith
flip_unequal (finite a) infinite h = refl
flip_unequal infinite (finite b) h = refl
flip_unequal infinite infinite h = cc

abbrev pub is_finite : Number → Bool
is_finite (finite n) = true
is_finite infinite = false

flip_difference :
    (a b : Number) → is_finite a ≡ true → compare_difference b a ≡ negate (compare_difference a b)
unfolding compare_difference
flip_difference (finite a) (finite b) h = ground arith
flip_difference (finite a) infinite h = refl
flip_difference infinite b h = cc

===-false-sym : (s t : String) → (s === t) ≡ false → (t === s) ≡ false
===-false-sym s t h = elim (Bool-cases (t === s)) [
  | inl k ↦ let same_text = ===_eq t s k in let impossible = rw (same_text, ===_refl s) at h in cc
  | inr k ↦ k
]

is_same-negate : (c : ℤ) → is_same (negate c) ≡ is_same c
is_same-negate (pos n) = ground arith
is_same-negate (negsuc n) = ground arith

-- `text_before` decides which of two different texts comes first.
module _ (g : Grammar)
    (apart : (s t : String) → (s === t) ≡ false → g.text_before t s ≡ not (g.text_before s t)) where
  -- A part whose number is finite.
  abbrev pub IsSmall : String → Type 0
  IsSmall t = is_finite (g.to_number t) ≡ true

  flip_parts :
      (x y : String)
      → is_finite (g.to_number x) ≡ true
      → compare_parts g y x ≡ negate (compare_parts g x y)
  unfolding compare_parts
  flip_parts x y small = elim (Bool-cases (g.is_digits x)) [
    | inl h ↦ elim (Bool-cases (g.is_digits y)) [
      | inl k ↦ rw (h, k) (flip_difference (g.to_number x) (g.to_number y) small)
      | inr k ↦ rw (h, k) refl
    ]
    | inr h ↦ elim (Bool-cases (g.is_digits y)) [
      | inl k ↦ rw (h, k) refl
      | inr k ↦ elim (Bool-cases (x === y)) [
        | inl e ↦ let equal = ===_eq x y e in rw (h, k, equal, ===_refl y) refl
        | inr e ↦
            let back = ===-false-sym x y e in
            elim (Bool-cases (g.text_before x y)) [
              | inl b ↦ rw (h, k, e, back, apart x y e, b) refl
              | inr b ↦ rw (h, k, e, back, apart x y e, b) refl
            ]
      ]
    ]
  ]

  flip_prereleases :
      (xs ys : List String)
      → All IsSmall xs
      → compare_prereleases g ys xs ≡ negate (compare_prereleases g xs ys)
  unfolding compare_prereleases
  flip_prereleases [] [] small = refl
  flip_prereleases [] (y ∷ ys) small = refl
  flip_prereleases (x ∷ xs) [] small = refl
  flip_prereleases (x ∷ xs) (y ∷ ys) small =
      let flipped = flip_parts x y small.0 in
      let kept : is_same (compare_parts g y x) ≡ is_same (compare_parts g x y) =
        ap is_same flipped ∙ is_same-negate (compare_parts g x y) in
      elim (Bool-cases (is_same (compare_parts g x y))) [
        | inl h ↦ rw (kept, h) (flip_prereleases xs ys small.1)
        | inr h ↦ rw (kept, h) flipped
      ]

  flip_tails :
      (xs ys : List String)
      → All IsSmall xs
      → compare_tails g ys xs ≡ negate (compare_tails g xs ys)
  unfolding compare_tails
  flip_tails [] [] small = refl
  flip_tails [] (y ∷ ys) small = refl
  flip_tails (x ∷ xs) [] small = refl
  flip_tails (x ∷ xs) (y ∷ ys) small = flip_prereleases (x ∷ xs) (y ∷ ys) small

  flip_parsed :
      (a b : Semver)
      → All IsSmall a.prerelease
      → compare_parsed g b a ≡ negate (compare_parsed g a b)
  unfolding compare_parsed
  flip_parsed a b small = elim (Bool-cases (is_equal a.major b.major)) [
    | inr h ↦ rw (is_equal-swap a.major b.major, h) (flip_unequal a.major b.major h)
    | inl h ↦ elim (Bool-cases (is_equal a.minor b.minor)) [
      | inr k ↦
          rw (is_equal-swap a.major b.major, h, is_equal-swap a.minor b.minor, k)
            (flip_unequal a.minor b.minor k)
      | inl k ↦ elim (Bool-cases (is_equal a.patch b.patch)) [
        | inr j ↦
            rw
              (
                is_equal-swap a.major b.major,
                h,
                is_equal-swap a.minor b.minor,
                k,
                is_equal-swap a.patch b.patch,
                j,
              )
              (flip_unequal a.patch b.patch j)
        | inl j ↦
            rw
              (
                is_equal-swap a.major b.major,
                h,
                is_equal-swap a.minor b.minor,
                k,
                is_equal-swap a.patch b.patch,
                j,
              )
              (flip_tails a.prerelease b.prerelease small)
      ]
    ]
  ]

  flip_opt :
      (a : Semver) (b : Option Semver) {c : ℤ}
      → All IsSmall a.prerelease
      → compare_opt g (some a) b ≡ some c
      → compare_opt g b (some a) ≡ some (negate c)
  unfolding compare_opt
  flip_opt a none small e = cc
  flip_opt a (some b) small e = ap some (flip_parsed a b small ∙ ap negate (some_inj.0 e))

  -- Versions compare the other way round with the opposite result, where both are versions, the
  -- numbers among the parts of the first one's prerelease are finite, and the order of texts decides
  -- between different texts.
  pub compare_versions_swapped :
      (trim : String → String) (left right : String) (a : Semver) {c : ℤ}
      → parse_semver g trim left ≡ some a
      → All IsSmall a.prerelease
      → compare_versions g trim left right ≡ some c
      → compare_versions g trim right left ≡ some (negate c)
  unfolding compare_versions
  compare_versions_swapped trim left right a parsed small e =
      rw parsed (flip_opt a (parse_semver g trim right) small (rw parsed at e))
