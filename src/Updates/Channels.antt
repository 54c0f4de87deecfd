-- ===== src/Updates/Channels.antt =====
-- At most one release is active in each channel of a distribution, and what an update of one row keeps.
use otto_control.Prelude.{
  ℕ, ◌+◌, ◌≤◌, String, ◌===◌, ===_refl, Bool, true, false, some, get, set, count, All, All-set,
  total-set, count-set, one_if, Bool-cases, inl, inr, ◌≡◌, refl, arith, le→leb, ◌⊎◌, ===_eq,
}
use otto_control.Errors.{ok}
use otto_control.Updates.Releases.{
  Releases, Release, Channel, canary, stable, required, is_channel, is_active, is_active_in,
  active_in, passes_checks, update_release,
}

pub record IsOrdered (rs : Releases) : Type 0 where
  pub unique : (id : String) → count id rs ≤ 1
  pub single : (d : String) (c : Channel) → active_in d c rs ≤ 1
  pub checked : All (λ e. passes_checks e.1 ≡ true) rs

abbrev pub part : String → Channel → Release → ℕ
part d c r = one_if (is_active_in d c r)

-- An update is accepted that adds no second active row anywhere.
pub update_release-IsOrdered :
    (rs : Releases) (id : String) (r old : Release)
    → IsOrdered rs
    → get id rs ≡ some old
    → passes_checks r ≡ true
    → ((d : String) (c : Channel) → active_in d c rs + part d c r ≤ 1 + part d c old)
    → (update_release id r rs ≡ ok (set id r rs)) × IsOrdered (set id r rs)
unfolding update_release
update_release-IsOrdered rs id r old o there good room =
    let few : (d : String) (c : Channel) → active_in d c (set id r rs) ≤ 1 =
      λ d c. omega (arith, total-set (part d c) id r rs there, room d c) in
    (
      rw
          (
            update_release,
            good,
            le→leb (active_in r.distribution_id r.channel (set id r rs)) 1
                (few r.distribution_id r.channel),
          )
          refl,
      record {
        unique = λ j. count-set j id r rs (o.unique j);
        single = few;
        checked = All-set (λ e. passes_checks e.1 ≡ true) id r rs good o.checked;
      },
    )

channel_eq : (a b : Channel) → is_channel a b ≡ true → a ≡ b
channel_eq canary canary h = refl
channel_eq canary stable h = cc
channel_eq canary required h = cc
channel_eq stable canary h = cc
channel_eq stable stable h = refl
channel_eq stable required h = cc
channel_eq required canary h = cc
channel_eq required stable h = cc
channel_eq required required h = refl

pub is_channel_refl : (c : Channel) → is_channel c c ≡ true
is_channel_refl canary = refl
is_channel_refl stable = refl
is_channel_refl required = refl

-- The row of an active release counts in its own channel and in no other.
pub part_other :
    (d : String) (c : Channel) (r : Release)
    → (part d c r ≡ 0) ⊎ ((r.distribution_id ≡ d) × (r.channel ≡ c))
part_other d c r = elim (Bool-cases (r.distribution_id === d)) [
  | inr h ↦ inl (ground (arith, h))
  | inl h ↦ elim (Bool-cases (is_channel r.channel c)) [
    | inr q ↦ inl (ground (arith, h, q))
    | inl q ↦ inr (===_eq r.distribution_id d h, channel_eq r.channel c q)
  ]
]

-- A row turned inactive makes room.
pub update_release_off :
    (rs : Releases) (id : String) (r old : Release)
    → IsOrdered rs
    → get id rs ≡ some old
    → is_active r.state ≡ false
    → (update_release id r rs ≡ ok (set id r rs)) × IsOrdered (set id r rs)
update_release_off rs id r old o there off =
    update_release-IsOrdered rs id r old o there (rw off refl)
      (λ d c. let nothing : part d c r ≡ 0 = rw off refl in omega (arith, nothing, o.single d c))

one_if-le : (b : Bool) → one_if b ≤ 1
one_if-le true = omega arith
one_if-le false = omega arith

-- A row turned active where its channel has no other.
pub update_release_on :
    (rs : Releases) (id : String) (r old : Release)
    → IsOrdered rs
    → get id rs ≡ some old
    → passes_checks r ≡ true
    → is_active r.state ≡ true
    → active_in r.distribution_id r.channel rs ≡ part r.distribution_id r.channel old
    → (update_release id r rs ≡ ok (set id r rs))
      × IsOrdered (set id r rs)
      × (active_in r.distribution_id r.channel (set id r rs) ≡ 1)
update_release_on rs id r old o there good on alone =
    let own : part r.distribution_id r.channel r ≡ 1 =
      rw (on, ===_refl r.distribution_id, is_channel_refl r.channel) refl in
    let (done, ordered) = update_release-IsOrdered rs id r old o there good (λ d c.
      elim (part_other d c r) [
        | inl nothing ↦ omega (arith, nothing, o.single d c)
        | inr (same_d, same_c) ↦
            let alone1 : active_in d c rs ≡ part d c old = rw (same_d, same_c) at alone in
            omega (arith, alone1, one_if-le (is_active_in d c r))
      ]) in
    let exchange = total-set (part r.distribution_id r.channel) id r rs there in
    (done, ordered, omega (arith, exchange, own, alone))
