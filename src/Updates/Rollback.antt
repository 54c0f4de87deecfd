-- ===== src/Updates/Rollback.antt =====
-- What `rollbackUpdateRelease` leaves.
use otto_control.Prelude.{
  ℕ, ◌≤◌, String, ◌===◌, ===_refl, true, false, some, [], ◌∷◌, get, set, update, All-update,
  get-set, get-set_other, get-update, Option-map, count-update, Bool-cases, inl, inr, ◌≡◌, refl,
  arith, is_some,
}
use mathlib.Core.Path.{subst, sym, ap, ◌∙◌}
use otto_control.Errors.{ok}
use otto_control.Updates.Releases.{
  Releases, Release, Channel, is_active_in, active_in, passes_checks, pause_active, can_roll_back,
  roll_back, restore, find_fallback, restore_fallback, rollback_update_release,
}
use otto_control.Updates.Channels.{
  IsOrdered, part, update_release_off, update_release_on, is_channel_refl,
}

paused_less :
    (d : String) (c : Channel) (at : ℕ) (d' : String) (c' : Channel) (rs : Releases)
    → active_in d' c' (update (pause_active d c at) rs) ≤ active_in d' c' rs
paused_less d c at d' c' [] = omega arith
paused_less d c at d' c' (e ∷ rs) = elim (Bool-cases (is_active_in d c e.1)) [
  | inl h ↦ rw h (omega (arith, paused_less d c at d' c' rs))
  | inr h ↦ rw h (omega (arith, paused_less d c at d' c' rs))
]

paused_none :
    (d : String) (c : Channel) (at : ℕ) (rs : Releases)
    → active_in d c (update (pause_active d c at) rs) ≡ 0
paused_none d c at [] = refl
paused_none d c at (e ∷ rs) = elim (Bool-cases (is_active_in d c e.1)) [
  | inl h ↦ rw h (omega (arith, paused_none d c at rs))
  | inr h ↦ rw (h, h) (omega (arith, paused_none d c at rs))
]

pause_checks :
    (d : String) (c : Channel) (at : ℕ) (r : Release)
    → passes_checks r ≡ true
    → passes_checks (pause_active d c at r) ≡ true
pause_checks d c at r good = elim (Bool-cases (is_active_in d c r)) [
  | inl h ↦ rw h refl
  | inr h ↦ rw h good
]

paused-IsOrdered :
    (d : String) (c : Channel) (at : ℕ) (rs : Releases)
    → IsOrdered rs
    → IsOrdered (update (pause_active d c at) rs)
paused-IsOrdered d c at rs o = record {
  unique = λ k. rw (count-update (pause_active d c at) k rs) (o.unique k);
  single = λ d' c'. omega (arith, paused_less d c at d' c' rs, o.single d' c');
  checked =
      All-update (λ e. passes_checks e.1 ≡ true) (pause_active d c at) rs
        (λ e good. pause_checks d c at e.1 good) o.checked;
}

-- A row that was paused, or left alone, is not active in the channel.
part_paused :
    (d : String) (c : Channel) (at : ℕ) (r : Release) → part d c (pause_active d c at r) ≡ 0
part_paused d c at r = elim (Bool-cases (is_active_in d c r)) [
  | inl h ↦ rw h refl
  | inr h ↦ rw (h, h) refl
]

find_fallback_found :
    (rs : Releases) (x : Release) (p : String) (r : Release)
    → x.previous_release_id ≡ some p
    → get p rs ≡ some r
    → r.distribution_id ≡ x.distribution_id
    → r.channel ≡ x.channel
    → find_fallback rs x ≡ some (p, r)
unfolding find_fallback
find_fallback_found rs x p r named there same_d same_c =
    rw
      (
        named,
        find_fallback,
        there,
        same_d,
        same_c,
        ===_refl x.distribution_id,
        is_channel_refl x.channel,
      )
      refl

-- The rollback of an active or paused release that took over from another of its channel succeeds
-- and restores that other release as the only active one of the channel. It does so in whatever
-- state the other release is: one that was itself rolled back becomes active again.
pub rollback_update_release_restores :
    (rs : Releases) (id : String) (x : Release) (p : String) (r : Release) (at : ℕ)
    → IsOrdered rs
    → get id rs ≡ some x
    → can_roll_back x.state ≡ true
    → x.previous_release_id ≡ some p
    → (p === id) ≡ false
    → (id === p) ≡ false
    → get p rs ≡ some r
    → r.distribution_id ≡ x.distribution_id
    → r.channel ≡ x.channel
    → is_some r.published_at ≡ true
    → (rs' : Releases) × (rollback_update_release rs id at
        ≡ ok (some (record { release = roll_back at x; fallback = some (restore at r) }), rs'))
      × IsOrdered rs'
      × (get p rs' ≡ some (restore at r))
      × (get id rs' ≡ some (roll_back at x))
      × (active_in x.distribution_id x.channel rs' ≡ 1)
unfolding rollback_update_release restore_fallback
rollback_update_release_restores rs id x p r at o there can named apart apart' held same_d same_c
      shown =
    let d = x.distribution_id in
    let c = x.channel in
    let (done, o1) = update_release_off rs id (roll_back at x) x o there refl in
    let rs1 = set id (roll_back at x) rs in
    let held1 : get p rs1 ≡ some r = get-set_other p id (roll_back at x) rs apart' ∙ held in
    let rs2 = update (pause_active d c at) rs1 in
    let o2 = paused-IsOrdered d c at rs1 o1 in
    let held2 : get p rs2 ≡ some (pause_active d c at r) =
      get-update (pause_active d c at) p rs1 ∙ ap (Option-map (pause_active d c at)) held1 in
    let alone : active_in r.distribution_id r.channel rs2
        ≡ part r.distribution_id r.channel (pause_active d c at r) =
      subst (λ y. active_in y r.channel rs2 ≡ part y r.channel (pause_active d c at r)) (sym same_d)
        (subst (λ y. active_in d y rs2 ≡ part d y (pause_active d c at r)) (sym same_c)
          (paused_none d c at rs1 ∙ sym (part_paused d c at r))) in
    let (done2, o3, one) =
      update_release_on rs2 p (restore at r) (pause_active d c at r) o2 held2 shown refl alone in
    let rs3 = set p (restore at r) rs2 in
    let stays : get id rs3 ≡ some (roll_back at x) =
      get-set_other id p (restore at r) rs2 apart
      ∙ get-update (pause_active d c at) id rs1
      ∙ ap (Option-map (pause_active d c at)) (get-set id (roll_back at x) rs) in
    let fallback = find_fallback_found rs1 x p r named held1 same_d same_c in
    (
      rs3,
      rw (there, rollback_update_release, can, done, fallback, restore_fallback, done2, stays) refl,
      o3,
      get-set p (restore at r) rs2,
      stays,
      subst (λ y. active_in y x.channel rs3 ≡ 1) same_d
          (subst (λ y. active_in r.distribution_id y rs3 ≡ 1) same_c one),
    )
