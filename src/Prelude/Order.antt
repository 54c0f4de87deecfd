-- ===== src/Prelude/Order.antt =====
-- The order of texts by the numbers of their characters decides between different texts.
use Prim.Native.Nat.{ℕ, Ordering, compare as compare_ℕ}
use Prim.Native.Char.{code}
use Prim.Native.String.compare
use Prim.Native.String.{String, [], ◌∷◌, compare, then}
use mathlib.Core.Path.{◌≡◌, refl, sym, ap, ◌∙◌}
use mathlib.Core.Bool.{Bool, false, not}
use native.Mathlib.Omega.{arith}
use text.Mathlib.Text.{is_lt, is_eq}
use otto_control.Prelude.Text.{◌===◌}

abbrev pub text_before : String → String → Bool
text_before s t = is_lt (compare s t)

abbrev reverse : Ordering → Ordering
reverse Ordering.lt = Ordering.gt
reverse Ordering.eq = Ordering.eq
reverse Ordering.gt = Ordering.lt

reverse-then : (o p : Ordering) → reverse (then o p) ≡ then (reverse o) (reverse p)
reverse-then Ordering.lt p = refl
reverse-then Ordering.eq p = refl
reverse-then Ordering.gt p = refl

compare-reverse_ℕ : (a b : ℕ) → compare_ℕ b a ≡ reverse (compare_ℕ a b)
compare-reverse_ℕ a b = ground arith

compare-reverse : (s t : String) → compare t s ≡ reverse (compare s t)
compare-reverse [] [] = refl
compare-reverse [] (d ∷ t) = compare.cons-nil d t ∙ sym (ap reverse (compare.nil-cons d t))
compare-reverse (c ∷ s) [] = compare.nil-cons c s ∙ sym (ap reverse (compare.cons-nil c s))
compare-reverse (c ∷ s) (d ∷ t) =
    compare.cons-cons d c t s
    ∙ ap (λ o. then o (compare t s)) (compare-reverse_ℕ (code c) (code d))
    ∙ ap (then (reverse (compare_ℕ (code c) (code d)))) (compare-reverse s t)
    ∙ sym (reverse-then (compare_ℕ (code c) (code d)) (compare s t))
    ∙ sym (ap reverse (compare.cons-cons c d s t))

decides : (o : Ordering) → is_eq o ≡ false → is_lt (reverse o) ≡ not (is_lt o)
decides Ordering.lt h = refl
decides Ordering.eq h = cc
decides Ordering.gt h = refl

pub text_before_decides :
    (s t : String) → (s === t) ≡ false → text_before t s ≡ not (text_before s t)
text_before_decides s t h = ap is_lt (compare-reverse s t) ∙ decides (compare s t) h
