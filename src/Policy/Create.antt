-- ===== src/Policy/Create.antt =====
-- `createRelease` of src/modules/update-policy/service.ts.
use otto_control.Prelude.{
  ℕ, String, ◌===◌, ◌==◌, Bool, true, false, Option, none, some, map, leb, is_some, ◌||◌,
  if◌then◌else◌, pos,
}
use otto_control.Errors.{Result, ok, invalid_request, ensure, ◌>>=◌, ◌>>◌}
use otto_control.Requests.{
  distribution_id, source_commit, object_value, field, required_string, present,
}
use otto_control.Audit.Canonical.{Json, Entries, undefined, null, text, integer, no_entry, entry}
use otto_control.Updates.Releases.{
  Release, draft, Channel, canary, stable, required, create_update_release,
}
use otto_control.Commerce.Changes.{bounded}
use otto_control.Policy.Versions.{parse_semver}
use otto_control.Policy.Store.{PolicyStore}
use otto_control.Policy.Service.{UpdateService, record_update_event, active_distribution}

unfoldable pub parse_channel : String → Option Channel
parse_channel t =
    if t === "canary"
    then some canary
    else if t === "stable"
    then some stable
    else if t === "required"
    then some required
    else none

abbrev pub channel_name : Channel → String
channel_name canary = "canary"
channel_name stable = "stable"
channel_name required = "required"

unfoldable pub is_missing : Json → Bool
is_missing undefined = true
is_missing null = true
is_missing _ = false

unfoldable pub read_manifest : UpdateService → Json → Result (String × String)
read_manifest sv v = do
  body ← object_value v
  url ← required_string sv.texts body "url" 2048
  digest ← required_string sv.texts body "sha256" 64
  parsed ← present (sv.https_url url) (invalid_request "not an HTTPS URL without credentials")
  ensure (sv.is_sha256 (sv.texts.to_lower_case digest)) (invalid_request "not a SHA-256 hex digest")
      >> ok (parsed, sv.texts.to_lower_case digest)

unfoldable pub manifest_reference : UpdateService → Json → Result (Option (String × String))
manifest_reference sv v =
    if is_missing v then ok none else (read_manifest sv v >>= λ m. ok (some m))

abbrev pub url_of : Option (String × String) → Option String
url_of none = none
url_of (some m) = some m.0

abbrev pub digest_of : Option (String × String) → Option String
digest_of none = none
digest_of (some m) = some m.1

unfoldable pub notes_of : UpdateService → Json → String
notes_of sv (text t) = sv.texts.trim t
notes_of sv _ = ""

-- `Number(body.rolloutPercent ?? 100)`, an integer between 1 and 100.
unfoldable pub rollout_of : UpdateService → Json → Result ℕ
rollout_of sv v = if is_missing v then ok 100 else bounded sv.texts 1 100 v

unfoldable pub allows_rollout : Channel → ℕ → Bool
allows_rollout canary percent = true
allows_rollout stable percent = percent == 100
allows_rollout required percent = percent == 100

-- The columns that the body gives; `id` is drawn by the service.
unfoldable pub read_release : UpdateService → String → Entries → ℕ → Result Release
read_release sv id body now = do
  distribution ← required_string sv.texts body "distributionId" 64
  version ← required_string sv.texts body "version" 80
  commit ← required_string sv.texts body "sourceCommit" 64
  channel_text ← required_string sv.texts body "channel" 16
  let plain = sv.grammar.strip_v version
  let notes = notes_of sv (field "notes" body)
  ensure (sv.texts.matches distribution_id (sv.texts.to_lower_case distribution))
        (invalid_request "distributionId is invalid")
      >> ensure (is_some (parse_semver sv.grammar sv.texts.trim plain))
          (invalid_request "version must be valid semantic version")
      >> ensure (sv.texts.matches source_commit (sv.texts.to_lower_case commit))
          (invalid_request "sourceCommit is invalid")
      >> (do
        channel ←
            present (parse_channel channel_text)
              (invalid_request "channel must be canary, stable, or required")
        percent ← rollout_of sv (field "rolloutPercent" body)
        ensure (allows_rollout channel percent)
              (invalid_request "stable and required releases must use 100 percent rollout")
            >> ensure (leb (sv.texts.text_length notes) 4000) (invalid_request "notes is too long")
            >> (do
              full ← manifest_reference sv (field "fullManifest" body)
              incremental ← manifest_reference sv (field "incrementalManifest" body)
              ensure (is_some full || is_some incremental)
                    (invalid_request "at least one full or incremental manifest is required")
                  >> ok (record {
                    id = id;
                    distribution_id = sv.texts.to_lower_case distribution;
                    version = plain;
                    source_commit = sv.texts.to_lower_case commit;
                    channel = channel;
                    rollout_percent = percent;
                    state = draft;
                    notes = notes;
                    full_manifest_url = url_of full;
                    full_manifest_sha256 = digest_of full;
                    incremental_manifest_url = url_of incremental;
                    incremental_manifest_sha256 = digest_of incremental;
                    previous_release_id = none;
                    published_at = none;
                    created_at = now;
                    updated_at = now;
                  })))

abbrev pub release_detail : Release → Entries
release_detail x = entry "distributionId" (text x.distribution_id) (
    entry "version" (text x.version) (
      entry "channel" (text (channel_name x.channel))
        (entry "rolloutPercent" (integer (pos x.rollout_percent)) no_entry)))

unfoldable pub create_release :
    UpdateService → String → Json → String → ℕ → PolicyStore → Result (Release × PolicyStore)
create_release sv id raw actor_id now s = do
  body ← object_value raw
  given ← read_release sv id body now
  _ ← active_distribution given.distribution_id s
  (x, rs) ← create_update_release (map (λ e. e.0) s.distributions) s.releases given
  let s1 : PolicyStore = record s { releases = rs }
  ok (
    x,
    record_update_event sv actor_id "update_release.created" "update_release" x.id
        (release_detail x) now s1,
  )
