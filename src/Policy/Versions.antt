-- ===== src/Policy/Versions.antt =====
-- `parseSemver` and `compareVersions` of src/modules/update-policy/service.ts. The regular
-- expressions, `Number`, `split` and the order of texts are parameters.
use otto_control.Prelude.{
  ℕ, String, ◌===◌, ◌==◌, Bool, true, false, not, if◌then◌else◌, ltb, Option, none, some, List, [],
  ◌∷◌, ℤ, pos, negsuc,
}

-- What `Number` gives for digits: a double, which is infinite from 309 digits or so on.
pub data Number : Type 0 where
  finite : ℕ → Number
  infinite : Number

-- The groups of a match of SEMVER_PATTERN.
pub record Match : Type 0 where
  pub major : String
  pub minor : String
  pub patch : String
  pub prerelease : Option String

pub record Grammar : Type 0 where
  pub exec : String → Option Match
  pub to_number : String → Number
  pub split_dots : String → List String
  pub is_digits : String → Bool
  pub text_before : String → String → Bool
  pub strip_v : String → String

pub record Semver : Type 0 where
  pub major : Number
  pub minor : Number
  pub patch : Number
  pub prerelease : List String

unfoldable pub prerelease_of : Grammar → Option String → List String
prerelease_of g none = []
prerelease_of g (some t) = g.split_dots t

-- The pattern is applied to the trimmed text.
unfoldable pub parse_semver : Grammar → (String → String) → String → Option Semver
parse_semver g trim value = elim (g.exec (trim value)) [
  | none ↦ none
  | some m ↦ some (record {
    major = g.to_number m.major;
    minor = g.to_number m.minor;
    patch = g.to_number m.patch;
    prerelease = prerelease_of g m.prerelease;
  })
]

-- -1, 0 and 1.
abbrev pub less : ℤ
less = negsuc 0

abbrev pub same : ℤ
same = pos 0

abbrev pub more : ℤ
more = pos 1

abbrev pub is_same : ℤ → Bool
is_same (pos n) = n == 0
is_same (negsuc n) = false

abbrev pub is_less : ℤ → Bool
is_less (pos n) = false
is_less (negsuc n) = true

-- `a === b` and, for the rest of `compareVersions`, `a < b ? -1 : 1`.
unfoldable pub is_equal : Number → Number → Bool
is_equal (finite a) (finite b) = a == b
is_equal infinite infinite = true
is_equal _ _ = false

unfoldable pub compare_unequal : Number → Number → ℤ
compare_unequal (finite a) (finite b) = if ltb a b then less else more
compare_unequal (finite a) infinite = less
compare_unequal infinite b = more

-- The difference of two numbers, tested against 0: that of two infinite ones is NaN, which is
-- neither 0 nor less than 0.
unfoldable pub compare_difference : Number → Number → ℤ
compare_difference (finite a) (finite b) = if a == b then same else if ltb a b then less else more
compare_difference (finite a) infinite = less
compare_difference infinite b = more

-- One round of the loop over the parts of two prereleases; it goes on where this is 0.
unfoldable pub compare_parts : Grammar → String → String → ℤ
compare_parts g x y =
    if g.is_digits x
    then (if g.is_digits y then compare_difference (g.to_number x) (g.to_number y) else less)
    else if g.is_digits y
    then more
    else if x === y
    then same
    else if g.text_before x y
    then less
    else more

-- The loop itself, up to the longer length.
unfoldable pub compare_prereleases : Grammar → List String → List String → ℤ
compare_prereleases g [] [] = same
compare_prereleases g [] (y ∷ ys) = less
compare_prereleases g (x ∷ xs) [] = more
compare_prereleases g (x ∷ xs) (y ∷ ys) =
    let rest = compare_prereleases g xs ys in
    if is_same (compare_parts g x y) then rest else compare_parts g x y

-- A release without a prerelease is later than one with.
unfoldable pub compare_tails : Grammar → List String → List String → ℤ
compare_tails g [] [] = same
compare_tails g [] (y ∷ ys) = more
compare_tails g (x ∷ xs) [] = less
compare_tails g (x ∷ xs) (y ∷ ys) = compare_prereleases g (x ∷ xs) (y ∷ ys)

unfoldable pub compare_parsed : Grammar → Semver → Semver → ℤ
compare_parsed g a b =
    if not (is_equal a.major b.major)
    then compare_unequal a.major b.major
    else if not (is_equal a.minor b.minor)
    then compare_unequal a.minor b.minor
    else if not (is_equal a.patch b.patch)
    then compare_unequal a.patch b.patch
    else compare_tails g a.prerelease b.prerelease

unfoldable pub compare_opt : Grammar → Option Semver → Option Semver → Option ℤ
compare_opt g (some a) (some b) = some (compare_parsed g a b)
compare_opt g _ _ = none

unfoldable pub compare_versions : Grammar → (String → String) → String → String → Option ℤ
compare_versions g trim left right =
    compare_opt g (parse_semver g trim left) (parse_semver g trim right)
