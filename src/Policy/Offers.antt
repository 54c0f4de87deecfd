-- ===== src/Policy/Offers.antt =====
-- Which release a policy offers, and to whom.
use otto_control.Prelude.{
  Bool, true, false, Bool-cases, Option-cases, inl, inr, Option, none, some, is_some, List, [], ◌∷◌,
  find, All, not, ◌&&◌, ◌≡◌, refl, sym, ap, ℤ,
}
use otto_control.Errors.{ok, ok_inj}
use otto_control.Updates.Releases.{Release}
use otto_control.Policy.Versions.{compare_versions, is_less}
use otto_control.Policy.Request.{PolicyService, PolicyRequest}
use otto_control.Policy.Resolve.{choose_release, is_outside}

abbrev pub is_newer : Option ℤ → Bool
is_newer none = false
is_newer (some c) = is_less c

-- A release that a deployment may be offered: newer than its version, and not a canary that is
-- rolled out to others.
abbrev pub is_candidate : PolicyService → PolicyRequest → Release → Bool
is_candidate sv r x =
    is_newer (compare_versions sv.grammar sv.texts.trim r.current_version x.version)
    && not (is_outside sv r x)

abbrev pub IsComparable : PolicyService → PolicyRequest → Release → Type 0
IsComparable sv r x =
    is_some (compare_versions sv.grammar sv.texts.trim r.current_version x.version) ≡ true

-- Among releases with valid versions the loop finds the first candidate, or that there is none.
pub choose_release-find :
    (sv : PolicyService) (r : PolicyRequest) (xs : List Release) (outside : Bool)
    → All (IsComparable sv r) xs
    → (o : Bool) × (choose_release sv r xs outside ≡ ok (find (is_candidate sv r) xs, o))
unfolding choose_release
choose_release-find sv r [] outside a = (outside, refl)
choose_release-find sv r (x ∷ xs) outside a =
    elim (Option-cases (compare_versions sv.grammar sv.texts.trim r.current_version x.version)) [
      | inl gone ↦ let impossible = rw gone at a.0 in cc
      | inr (c, there) ↦ elim (Bool-cases (is_less c)) [
        | inr h ↦
            let (o, e) = choose_release-find sv r xs outside a.1 in
            (o, rw (there, choose_release, h) e)
        | inl h ↦ elim (Bool-cases (is_outside sv r x)) [
          | inl k ↦
              let (o, e) = choose_release-find sv r xs true a.1 in
              (o, rw (there, choose_release, h, k) e)
          | inr k ↦ (outside, rw (there, choose_release, h, k) refl)
        ]
      ]
    ]

-- What the loop chooses is the first candidate, whenever it answers.
pub choose_release-eq-ok :
    (sv : PolicyService) (r : PolicyRequest) (xs : List Release) (outside : Bool)
    {choice : Option Release × Bool}
    → choose_release sv r xs outside ≡ ok choice
    → choice.0 ≡ find (is_candidate sv r) xs
unfolding choose_release
choose_release-eq-ok sv r [] outside e = sym (ap (λ p. p.0) (ok_inj e))
choose_release-eq-ok sv r (x ∷ xs) outside e =
    elim (Option-cases (compare_versions sv.grammar sv.texts.trim r.current_version x.version)) [
      | inl gone ↦ let impossible = rw (gone, choose_release) at e in cc
      | inr (c, there) ↦ elim (Bool-cases (is_less c)) [
        | inr h ↦
            rw (there, h)
              (choose_release-eq-ok sv r xs outside (rw (there, choose_release, h) at e))
        | inl h ↦ elim (Bool-cases (is_outside sv r x)) [
          | inl k ↦
              rw (there, h, k)
                (choose_release-eq-ok sv r xs true (rw (there, choose_release, h, k) at e))
          | inr k ↦
              rw (there, h, k)
                (sym (ap (λ p. p.0) (ok_inj (rw (there, choose_release, h, k) at e))))
        ]
      ]
    ]
