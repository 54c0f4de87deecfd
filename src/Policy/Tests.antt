-- ===== src/Policy/Tests.antt =====
-- Runs of the update policy, and instances of its theorems.
use otto_control.Prelude.{
  ℕ, String, ◌===◌, Bool, true, false, Option, none, some, [], ◌∷◌, ◌≡◌, refl, find, if◌then◌else◌,
  pos, text_before, text_before_decides,
}
use otto_control.Policy.Versions.{
  parse_semver, prerelease_of, finite, Semver, is_equal, compare_unequal, compare_difference,
  compare_parts, compare_prereleases, compare_tails, compare_parsed, compare_opt, compare_versions,
  Grammar, Match, less, more,
}
use otto_control.Policy.Request.{
  check_policy, check_signature, is_recent, distance, check_assignment, check_policy_license,
  policy_request, check_request, read_request, PolicyService, PolicyRequest, Authentication,
  Payload, update_available,
}
use otto_control.Policy.Resolve.{
  is_outside, update_cohort_percent, choose_release, resolve, resolve_checked, resolve_nonce,
  resolve_fresh, policy_nonce, make_policy, check_selected, reason_of,
}
use otto_control.Policy.Store.{
  consume_update_policy_nonce, has_deployment_update_assignment, is_assigned, PolicyStore,
}
use otto_control.Requests.{object_value, field, required_string, trimmed, present, Texts}
use otto_control.Commerce.Store.{get_deployment, is_nonce, live_nonces}
use otto_control.Commerce.LeaseChecks.{is_version_1}
use otto_control.Updates.Releases.{get_active_update_releases, Release, active, canary, stable}
use otto_control.Errors.{ok}
use otto_control.Licenses.Seats.{enforce}
use otto_control.Audit.Canonical.{Json, integer, text, object, no_entry, entry}
use otto_control.Audit.Chain.{genesis_hash}
use otto_control.Commerce.Records.{Customer, Deployment, License, active as in_use}
use otto_control.Policy.Order.{compare_versions_swapped}
use otto_control.Policy.Offers.{is_candidate, choose_release-find}
use otto_control.Policy.Served.{IsServed, IsOffer, resolve-IsOffer}

-- Two versions that the toy grammar reads: 1.0.0-beta and 1.0.0, and 2.0.0.
abbrev toy_exec : String → Option Match
toy_exec t =
    if t === "1.0.0-beta"
    then some (record { major = "1"; minor = "0"; patch = "0"; prerelease = some "beta" })
    else if t === "1.0.0"
    then some (record { major = "1"; minor = "0"; patch = "0"; prerelease = none })
    else if t === "2.0.0"
    then some (record { major = "2"; minor = "0"; patch = "0"; prerelease = none })
    else none

abbrev toy_number : String → ℕ
toy_number t = if t === "1" then 1 else if t === "2" then 2 else 0

abbrev toy_grammar : Grammar
toy_grammar = record {
  exec = toy_exec;
  to_number = λ t. finite (toy_number t);
  split_dots = λ t. t ∷ [];
  is_digits = λ t. true;
  text_before = text_before;
  strip_v = λ t. t;
}

abbrev toy_texts : Texts
toy_texts = record {
  trim = λ t. t;
  text_length = λ t. 1;
  to_lower_case = λ t. t;
  matches = λ p t. true;
  parse_date = λ t. some 0;
  number = λ v. none;
}

older : compare_versions toy_grammar (λ t. t) "1.0.0-beta" "1.0.0" ≡ some less
unfolding parse_semver prerelease_of is_equal compare_unequal compare_difference compare_parts
    compare_prereleases compare_tails compare_parsed compare_opt compare_versions
older = refl

abbrev beta : Semver
beta = record { major = finite 1; minor = finite 0; patch = finite 0; prerelease = "beta" ∷ [] }

compare_versions_swapped_example :
    compare_versions toy_grammar (λ t. t) "1.0.0" "1.0.0-beta" ≡ some more
unfolding parse_semver prerelease_of
compare_versions_swapped_example =
    compare_versions_swapped toy_grammar text_before_decides (λ t. t) "1.0.0-beta" "1.0.0" beta refl
      (refl, tt) older

abbrev second : Release
second = record {
  id = "rel_2";
  distribution_id = "main";
  version = "2.0.0";
  source_commit = "abcdef0";
  channel = canary;
  rollout_percent = 10;
  state = active;
  notes = "";
  full_manifest_url = some "https://x/2";
  full_manifest_sha256 = some "aa";
  incremental_manifest_url = none;
  incremental_manifest_sha256 = none;
  previous_release_id = none;
  published_at = some 3;
  created_at = 1;
  updated_at = 3;
}

abbrev first : Release
first = record second { id = "rel_1"; version = "1.0.0"; channel = stable; rollout_percent = 100 }

abbrev toy : PolicyService
toy = record {
  texts = toy_texts;
  grammar = toy_grammar;
  lease_token = λ l. "token";
  sign_request = λ t at n v. "signed";
  digest_word = λ a b c. 250;
  assert_release_ready = λ x. ok tt;
  active_envelopes = λ id. ok [];
  sign_policy = λ p. ok ("signed", "k1");
  policy_duration_ms = 300000;
}

abbrev asked : PolicyRequest
asked = record {
  license_id = "lic_1";
  deployment_id = "dep_1";
  machine_fingerprint = "m1";
  distribution_id = "main";
  current_version = "1.0.0-beta";
}

-- The canary is rolled out to others, so that the stable release is the first candidate.
choose_release-find_example :
    (o : Bool) × (choose_release toy asked (second ∷ first ∷ []) false
      ≡ ok (find (is_candidate toy asked) (second ∷ first ∷ []), o))
unfolding parse_semver prerelease_of is_equal compare_unequal compare_difference compare_parts
    compare_prereleases compare_tails compare_parsed compare_opt compare_versions
choose_release-find_example =
    choose_release-find toy asked (second ∷ first ∷ []) false (refl, (refl, tt))

stable_chosen : find (is_candidate toy asked) (second ∷ first ∷ []) ≡ some first
unfolding parse_semver prerelease_of is_equal compare_unequal compare_difference compare_parts
    compare_prereleases compare_tails compare_parsed compare_opt compare_versions is_outside
    update_cohort_percent
stable_chosen = refl

abbrev acme : Customer
acme = record { id = "cus_1"; name = "Acme"; status = in_use; created_at = 0; updated_at = 0 }

abbrev site : Deployment
site = record {
  id = "dep_1";
  customer_id = "cus_1";
  organization_id = "org_1";
  machine_fingerprint = "m1";
  name = "Site";
  status = in_use;
  created_at = 0;
  updated_at = 0;
}

abbrev sold : License
sold = record {
  id = "lic_1";
  revision = 1;
  deployment_id = "dep_1";
  customer_name = "Acme";
  organization_id = "org_1";
  machine_fingerprint = "m1";
  plan = "team";
  issued_at_ms = 0;
  expires_at_ms = 1000000;
  seat_limit = 10;
  grace_period_ms = 5000;
  seat_enforcement = enforce;
  billing_enforced = false;
  modules = [];
  offline = false;
  telemetry_allowed = true;
  lease_endpoint = some "https://control/lease";
  token_version = 1;
  signature = "signed";
  signing_key_id = "k1";
  revoked_at_ms = none;
  created_at = 0;
  updated_at = 0;
}

abbrev shop : PolicyStore
shop = record {
  commerce = record {
    customers = ("cus_1", acme) ∷ [];
    deployments = ("dep_1", site) ∷ [];
    licenses = ("lic_1", sold) ∷ [];
    lifecycle = [];
    seat_usage = [];
    lease_nonces = [];
    audit = record { events = []; last_sequence = 0; head_hash = genesis_hash };
  };
  distributions =
      (
        "main",
        record { id = "main"; name = "Main"; status = in_use; created_at = 0; updated_at = 0 },
      )
      ∷ [];
  assignments = record { deployment_id = "dep_1"; distribution_id = "main"; updated_at = 0 } ∷ [];
  releases = ("rel_2", second) ∷ ("rel_1", first) ∷ [];
  nonces = [];
}

abbrev body : Json
body = object (
    entry "version" (integer (pos 1)) (
      entry "licenseId" (text "lic_1") (
        entry "deploymentId" (text "dep_1") (
          entry "machineFingerprint" (text "m1") (
            entry "distributionId" (text "main")
              (entry "currentVersion" (text "1.0.0-beta") no_entry))))))

abbrev headers : Authentication
headers = record {
  bearer = "token";
  timestamp = some (pos 400);
  nonce = "nonce-0123456789";
  signature = "signed";
}

abbrev offered : Payload
offered = record {
  deployment_id = "dep_1";
  distribution_id = "main";
  current_version = "1.0.0-beta";
  reason = update_available;
  release = some first;
  artifacts = [];
  issued_at_ms = 500;
  expires_at_ms = 300500;
}

resolved : (resolve toy body headers 500 shop).0 ≡ ok (offered, "signed", "k1")
unfolding parse_semver prerelease_of is_equal compare_unequal compare_difference compare_parts
    compare_prereleases compare_tails compare_parsed compare_opt compare_versions is_outside
    update_cohort_percent choose_release resolve resolve_checked resolve_nonce resolve_fresh
    policy_nonce make_policy check_selected reason_of check_policy check_signature is_recent
    distance check_assignment check_policy_license policy_request check_request read_request
    consume_update_policy_nonce has_deployment_update_assignment is_assigned object_value field
    required_string trimmed present get_deployment is_nonce live_nonces is_version_1
    get_active_update_releases
resolved = refl

resolve-IsOffer_example :
    (r : PolicyRequest) × (l : License) × IsServed shop 500 r l
    × IsOffer toy (resolve toy body headers 500 shop).1 r offered first
resolve-IsOffer_example = resolve-IsOffer toy body headers 500 shop resolved refl
