-- ===== src/Updates/Tests.antt =====
-- Runs of the update releases on a table of two.
use otto_control.Prelude.{
  String, ◌===◌, ===_eq, ◌&&◌, none, some, [], ◌∷◌, ◌≡◌, refl, ◌≤◌, ◌+◌, arith, get, find,
  Bool-cases, one_if, inl, inr,
}
use otto_control.Errors.{ok}
use otto_control.Updates.Releases.{
  Releases, Release, Channel, stable, active, draft, rolled_back, ReleaseTransition,
  activate_update_release, publish, key_of, is_other_active, active_in, rollback_update_release,
  roll_back, restore, is_channel,
}
use otto_control.Updates.Channels.{IsOrdered}
use otto_control.Updates.Activation.{activate_update_release_single}
use otto_control.Updates.Rollback.{rollback_update_release_restores}

-- The release r1 was rolled back while it was paused; r2 took over from it and is active.
abbrev first_release : Release
first_release = record {
  id = "r1";
  distribution_id = "otto";
  version = "1.0.0";
  source_commit = "abcdef0";
  channel = stable;
  rollout_percent = 100;
  state = rolled_back;
  notes = "";
  full_manifest_url = some "https://example.com/m";
  full_manifest_sha256 = some "00";
  incremental_manifest_url = none;
  incremental_manifest_sha256 = none;
  previous_release_id = none;
  published_at = some 1;
  created_at = 1;
  updated_at = 3;
}

abbrev second_release : Release
second_release = record first_release {
  id = "r2";
  version = "1.1.0";
  state = active;
  previous_release_id = some "r1";
  published_at = some 2;
}

abbrev third_release : Release
third_release = record first_release {
  id = "r3";
  version = "1.2.0";
  state = draft;
  published_at = none;
}

abbrev table : Releases
table = ("r1", first_release) ∷ ("r2", second_release) ∷ ("r3", third_release) ∷ []

table-IsOrdered : IsOrdered table
table-IsOrdered = record {
  unique = λ k. once k;
  single = λ d c. sole d c;
  checked = (refl, (refl, (refl, tt)));
}
  where
    once :
        (k : String) → one_if ("r1" === k) + (one_if ("r2" === k) + (one_if ("r3" === k) + 0)) ≤ 1
    once k = elim (Bool-cases ("r1" === k)) [
      | inl h ↦ let same : "r1" ≡ k = ===_eq "r1" k h in rw (← same) (omega arith)
      | inr h ↦ elim (Bool-cases ("r2" === k)) [
        | inl q ↦ let same : "r2" ≡ k = ===_eq "r2" k q in rw (← same) (omega arith)
        | inr q ↦ elim (Bool-cases ("r3" === k)) [
          | inl w ↦ rw (h, q, w) (omega arith)
          | inr w ↦ rw (h, q, w) (omega arith)
        ]
      ]
    ]

    sole :
        (d : String) (c : Channel)
        → 0 + (one_if ("otto" === d && is_channel stable c) + (0 + 0)) ≤ 1
    sole d c = elim (Bool-cases ("otto" === d && is_channel stable c)) [
      | inl h ↦ rw h (omega arith)
      | inr h ↦ rw h (omega arith)
    ]

activate_update_release_single_example :
    (t : ReleaseTransition) × (rs' : Releases) × (activate_update_release table "r3" 9
      ≡ ok (some t, rs'))
    × IsOrdered rs'
    × (get "r3" rs'
        ≡ some (publish 9 (key_of (find (is_other_active third_release "r3") table)) third_release))
    × (active_in "otto" stable rs' ≡ 1)
activate_update_release_single_example =
    activate_update_release_single table "r3" third_release 9 table-IsOrdered refl refl

rollback_update_release_restores_example :
    (rs' : Releases) × (rollback_update_release table "r2" 9
      ≡ ok (
        some (record {
          release = roll_back 9 second_release;
          fallback = some (restore 9 first_release);
        }),
        rs',
      ))
    × IsOrdered rs'
    × (get "r1" rs' ≡ some (restore 9 first_release))
    × (get "r2" rs' ≡ some (roll_back 9 second_release))
    × (active_in "otto" stable rs' ≡ 1)
rollback_update_release_restores_example =
    rollback_update_release_restores table "r2" second_release "r1" first_release 9 table-IsOrdered
      refl refl refl refl refl refl refl refl refl
