-- ===== src/Updates/Activation.antt =====
-- What `activateUpdateRelease` leaves.
use otto_control.Prelude.{
  ℕ, String, ◌===◌, Bool, true, false, Option, some, get, set, find, find_sound, total-set,
  total_only, get-find, get-set, get-set_other, Option-cases, inl, inr, ◌≡◌, refl, arith,
  le-total-get, ◌⊎◌,
}
use mathlib.Core.Path.{◌∙◌}
use otto_control.Errors.{ok}
use otto_control.Updates.Releases.{
  Releases, Release, ReleaseState, draft, paused, active, rolled_back, ReleaseTransition,
  is_active_in, active_in, passes_checks, is_other_active, pause, pause_previous, key_of, row_of,
  publish, activate_update_release,
}
use otto_control.Updates.Channels.{IsOrdered, part, update_release_off, update_release_on}

-- The releases where a candidate's channel has no other active row.
record IsCleared (rs : Releases) (id : String) (x : Release) : Type 0 where
  ordered : IsOrdered rs
  there : get id rs ≡ some x
  alone : active_in x.distribution_id x.channel rs ≡ part x.distribution_id x.channel x

pause_previous-IsCleared :
    (rs : Releases) (id : String) (x : Release) (at : ℕ)
    → IsOrdered rs
    → get id rs ≡ some x
    → (rs1 : Releases) × (pause_previous rs (find (is_other_active x id) rs) at ≡ ok rs1)
      × IsCleared rs1 id x
unfolding pause_previous
pause_previous-IsCleared rs id x at o there =
    let d = x.distribution_id in
    let c = x.channel in
    elim (Option-cases (find (is_other_active x id) rs)) [
      | inl alone ↦ (
        rs,
        rw (alone, pause_previous) refl,
        record {
          ordered = o;
          there = there;
          alone = total_only (is_active_in d c) id rs (o.unique id) there alone;
        },
      )
      | inr (e, found) ↦
          let other = find_sound (is_other_active x id) rs found in
          let held = get-find (is_other_active x id) rs (o.unique e.0) found in
          let was : is_active_in d c e.1 ≡ true = ground (arith, other) in
          let apart : (e.0 === id) ≡ false = ground (arith, other) in
          let counted : part d c e.1 ≡ 1 = rw was refl in
          let (done, ordered) = update_release_off rs e.0 (pause at e.1) e.1 o held refl in
          let rs1 = set e.0 (pause at e.1) rs in
          let exchange = total-set (part d c) e.0 (pause at e.1) rs held in
          let stays = get-set_other id e.0 (pause at e.1) rs apart ∙ there in
          let gone : active_in d c rs1 ≡ 0 = omega (arith, exchange, counted, o.single d c) in
          (
            rs1,
            rw (found, pause_previous) done,
            record {
              ordered = ordered;
              there = stays;
              alone = omega (arith, gone, le-total-get (part d c) id rs1 stays);
            },
          )
    ]

-- `draft` and `paused` releases can be activated.
abbrev pub can_activate : ReleaseState → Bool
can_activate draft = true
can_activate paused = true
can_activate _ = false

publish_checks : (at : ℕ) (p : Option String) (x : Release) → passes_checks (publish at p x) ≡ true
publish_checks at p x = elim (Option-cases x.published_at) [
  | inl h ↦ rw h refl
  | inr (t, h) ↦ rw h refl
]

-- The activation of a draft or paused release succeeds, keeps the order of the table, and leaves
-- the release as the only active one of its distribution and channel; it notes which release it
-- took over from.
pub activate_update_release_single :
    (rs : Releases) (id : String) (x : Release) (at : ℕ)
    → IsOrdered rs
    → get id rs ≡ some x
    → can_activate x.state ≡ true
    → (t : ReleaseTransition) × (rs' : Releases) × (activate_update_release rs id at
        ≡ ok (some t, rs'))
      × IsOrdered rs'
      × (get id rs' ≡ some (publish at (key_of (find (is_other_active x id) rs)) x))
      × (active_in x.distribution_id x.channel rs' ≡ 1)
unfolding activate_update_release
activate_update_release_single rs id x at o there can =
    let previous = find (is_other_active x id) rs in
    let row = publish at (key_of previous) x in
    let (rs1, done, cleared) = pause_previous-IsCleared rs id x at o there in
    let (done1, ordered, one) =
      update_release_on rs1 id row x cleared.ordered cleared.there
        (publish_checks at (key_of previous) x) refl cleared.alone in
    let runs : activate_update_release rs id at
        ≡ ok (some (record { release = row; fallback = row_of previous }), set id row rs1) =
      elim (state_cases x.state can) [
        | inl h ↦ rw (there, activate_update_release, h, done, done1) refl
        | inr h ↦ rw (there, activate_update_release, h, done, done1) refl
      ] in
    (
      record { release = row; fallback = row_of previous },
      set id row rs1,
      runs,
      ordered,
      get-set id row rs1,
      one,
    )
  where
    state_cases : (s : ReleaseState) → can_activate s ≡ true → (s ≡ draft) ⊎ (s ≡ paused)
    state_cases draft h = inl refl
    state_cases paused h = inr refl
    state_cases active h = cc
    state_cases rolled_back h = cc
