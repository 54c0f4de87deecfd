-- ===== src/Updates/Releases.antt =====
-- The table `control_update_releases` and the methods that change it.
use otto_control.Prelude.{
  ℕ, String, ◌===◌, Bool, true, false, not, ◌&&◌, ◌||◌, Option, none, some, List, Map, get, has,
  set, update, values, leb, ltb, any, if◌then◌else◌, is_some, find, total, one_if, sort_by, select,
}
use otto_control.Errors.{
  Result, ok, err, conflict, database, unique_violation, check_violation, ◌>>=◌,
}
use otto_control.Federation.Grants.{or_else}
use otto_control.Billing.Post.{found, missing_row}

pub data Channel : Type 0 where
  canary stable required : Channel

pub data ReleaseState : Type 0 where
  draft active paused rolled_back : ReleaseState

pub record Release : Type 0 where
  pub id : String
  pub distribution_id : String
  pub version : String
  pub source_commit : String
  pub channel : Channel
  pub rollout_percent : ℕ
  pub state : ReleaseState
  pub notes : String
  pub full_manifest_url : Option String
  pub full_manifest_sha256 : Option String
  pub incremental_manifest_url : Option String
  pub incremental_manifest_sha256 : Option String
  pub previous_release_id : Option String
  pub published_at : Option ℕ
  pub created_at : ℕ
  pub updated_at : ℕ

-- The rows under their primary key.
abbrev pub Releases : Type 0
Releases = Map Release

pub record ReleaseTransition : Type 0 where
  pub release : Release
  pub fallback : Option Release

abbrev pub is_channel : Channel → Channel → Bool
is_channel canary canary = true
is_channel stable stable = true
is_channel required required = true
is_channel _ _ = false

abbrev pub is_active : ReleaseState → Bool
is_active active = true
is_active _ = false

-- Whether a row is the active one of a distribution and channel.
abbrev pub is_active_in : String → Channel → Release → Bool
is_active_in d c r = is_active r.state && r.distribution_id === d && is_channel r.channel c

abbrev pub active_in : String → Channel → Releases → ℕ
active_in d c rs = total (λ e. one_if (is_active_in d c e.1)) rs

-- `state <> 'active' OR published_at IS NOT NULL`.
abbrev pub passes_checks : Release → Bool
passes_checks r = not (is_active r.state) || is_some r.published_at

-- `UPDATE … WHERE id = $1`, under the check and the unique index on the active channel.
unfoldable pub update_release : String → Release → Releases → Result Releases
update_release id r rs =
    let rs' = set id r rs in
    if not (passes_checks r)
    then err (database check_violation)
    else if leb (active_in r.distribution_id r.channel rs') 1
    then ok rs'
    else err (database unique_violation)

abbrev pub is_same_release : Release → Release → Bool
is_same_release x y =
    x.distribution_id === y.distribution_id
    && x.version === y.version
    && is_channel x.channel y.channel

-- `INSERT` of a draft whose other columns the service has validated; the distributions that there
-- are come as a list.
unfoldable pub create_update_release :
    List String → Releases → Release → Result (Release × Releases)
create_update_release distributions rs r =
    let row : Release = record r {
      state = draft;
      previous_release_id = none;
      published_at = none;
    } in
    if has r.id rs || any (is_same_release r) (values rs)
    then err (conflict "update release already exists")
    else if any (λ d. d === r.distribution_id) distributions
    then ok (row, set r.id row rs)
    else err (conflict "update distribution does not exist")

abbrev pub is_other_active : Release → String → String × Release → Bool
is_other_active x id e = is_active_in x.distribution_id x.channel e.1 && not (e.0 === id)

abbrev pub pause : ℕ → Release → Release
pause at r = record r { state = paused; updated_at = at }

unfoldable pub pause_previous : Releases → Option (String × Release) → ℕ → Result Releases
pause_previous rs none at = ok rs
pause_previous rs (some e) at = update_release e.0 (pause at e.1) rs

abbrev pub key_of : Option (String × Release) → Option String
key_of none = none
key_of (some e) = some e.0

abbrev pub row_of : Option (String × Release) → Option Release
row_of none = none
row_of (some e) = some e.1

abbrev pub publish : ℕ → Option String → Release → Release
publish at previous r = record r {
  state = active;
  previous_release_id = previous;
  published_at = or_else r.published_at at;
  updated_at = at;
}

unfoldable pub activate_update_release :
    Releases → String → ℕ → Result (Option ReleaseTransition × Releases)
activate_update_release rs id at = elim (get id rs) [
  | none ↦ ok (none, rs)
  | some candidate ↦
      let previous = find (is_other_active candidate id) rs in
      let row = publish at (key_of previous) candidate in
      let proceed : Result (Option ReleaseTransition × Releases) = do
        rs1 ← pause_previous rs previous at
        rs2 ← update_release id row rs1
        ok (some (record { release = row; fallback = row_of previous }), rs2)
      in elim candidate.state [
        | active ↦ err (conflict "update release is already active")
        | rolled_back ↦ err (conflict "rolled-back release cannot be reactivated")
        | draft ↦ proceed
        | paused ↦ proceed
      ]
]

unfoldable pub pause_update_release : Releases → String → ℕ → Option Release × Releases
pause_update_release rs id at = elim (get id rs) [
  | none ↦ (none, rs)
  | some r ↦ if is_active r.state then (some (pause at r), set id (pause at r) rs) else (none, rs)
]

abbrev pub can_roll_back : ReleaseState → Bool
can_roll_back active = true
can_roll_back paused = true
can_roll_back _ = false

abbrev pub roll_back : ℕ → Release → Release
roll_back at r = record r { state = rolled_back; updated_at = at }

abbrev pub restore : ℕ → Release → Release
restore at r = record r { state = active; updated_at = at }

abbrev pub pause_active : String → Channel → ℕ → Release → Release
pause_active d c at r = if is_active_in d c r then pause at r else r

-- The row that the target took over from, if it is of the target's distribution and channel.
unfoldable pub find_fallback : Releases → Release → Option (String × Release)
find_fallback rs target = elim target.previous_release_id [
  | none ↦ none
  | some p ↦ elim (get p rs) [
    | none ↦ none
    | some r ↦
        if r.distribution_id === target.distribution_id && is_channel r.channel target.channel
        then some (p, r)
        else none
  ]
]

unfoldable pub restore_fallback :
    Releases → Release → Option (String × Release) → ℕ → Result (Option Release × Releases)
restore_fallback rs target none at = ok (none, rs)
restore_fallback rs target (some e) at = do
  rs' ←
      update_release e.0 (restore at e.1)
        (update (pause_active target.distribution_id target.channel at) rs)
  ok (some (restore at e.1), rs')

unfoldable pub rollback_update_release :
    Releases → String → ℕ → Result (Option ReleaseTransition × Releases)
rollback_update_release rs id at = elim (get id rs) [
  | none ↦ ok (none, rs)
  | some target ↦
      if can_roll_back target.state
      then (do
        rs1 ← update_release id (roll_back at target) rs
        (fallback, rs2) ← restore_fallback rs1 target (find_fallback rs1 target) at
        release ← found (get id rs2) missing_row
        ok (some (record { release = release; fallback = fallback }), rs2))
      else err (conflict "only an active or paused update release can be rolled back")
]

abbrev pub channel_rank : Channel → ℕ
channel_rank required = 1
channel_rank stable = 2
channel_rank canary = 3

-- `ORDER BY CASE channel WHEN 'required' THEN 1 WHEN 'stable' THEN 2 ELSE 3 END`.
unfoldable pub get_active_update_releases : Releases → String → List Release
get_active_update_releases rs d =
    sort_by (λ x y. ltb (channel_rank x.channel) (channel_rank y.channel))
      (select (λ r. r.distribution_id === d && is_active r.state) (values rs))
