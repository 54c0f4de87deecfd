-- ===== src/Commerce/Tests.antt =====
-- Runs of the sale of licenses, and instances of its theorems. Signatures and tokens are concrete
-- functions here.
use otto_control.Prelude.{
  ◌+◌, String, ◌===◌, true, false, Option, none, some, [], ◌∷◌, ◌≡◌, refl, arith, if◌then◌else◌,
  length, find, Option-map, ltb, ◌||◌, get, ℤ, pos,
}
use otto_control.Commerce.Leases.{
  issue_lease, lease_checked, lease_fresh, lease_seats, lease_counted, lease_reported, signed_lease,
  make_lease, expiry_grace, seat_grace, earliest, value_or, report_seats, seats_of, seat_report,
  is_changed, seat_event,
}
use otto_control.Commerce.LeaseChecks.{
  check_lease, check_bearer, check_body, check_binding, is_version_1, is_text, is_nonce_text,
  check_license, nonce_of, Lease, LeaseService,
}
use otto_control.Requests.{present, object_value, field, is_undefined, Texts}
use otto_control.Commerce.Store.{
  consume_lease_nonce, live_nonces, is_nonce, update_license, update_current, rebind,
  change_rebound, write_change, updated_row, log_change, clear_usage, is_logged, unique_as,
  revoke_license,
}
use otto_control.Licenses.Seats.{
  record_license_seat_usage, seat_status, overage_start, within_limit, enforce,
}
use otto_control.Commerce.Changes.{
  bounded, change_license, store_change, update_of, candidate, renewal, finish_change, record_event,
  Service,
}
use otto_control.Commerce.Records.{
  write_license, passes_checks, active, Customer, Deployment, License, Store,
}
use otto_control.Commerce.Telemetry.{
  row_of, insert_events, is_forbidden, telemetry_contains_content, TelemetryEvent, TelemetryStore,
  Batch, ingest_telemetry_batch, is_event, retained,
}
use otto_control.Errors.{Result, ok, err, conflict}
use otto_control.Audit.Canonical.{
  Json, Runtime, null, integer, text, array, object, no_entry, entry, no_item, item,
}
use otto_control.Audit.Chain.{genesis_hash}
use otto_control.Commerce.Revisions.{change_license_once}
use otto_control.Commerce.Lost.{lost_revocation}
use otto_control.Commerce.LeaseWindow.{IsEntitled, issue_lease-IsLive}
use otto_control.Commerce.LeaseTimes.{IsLive}
use otto_control.Commerce.Content.{mentions, depth, telemetry_contains_content_exact}
use otto_control.Commerce.Ingested.{or_other, telemetry_row, ingest_telemetry_batch_counts}

abbrev plain_runtime : Runtime
plain_runtime = record {
  sha256 = λ t. t;
  stringify = λ v. "{}";
  locale_before = λ a b. false;
  to_iso_string = λ n. "1970-01-01T00:00:00.000Z";
  read_back = λ v. v;
}

abbrev plain_number : Json → Option ℤ
plain_number (integer z) = some z
plain_number _ = none

abbrev plain_texts : Texts
plain_texts = record {
  trim = λ t. t;
  text_length = λ t. 1;
  to_lower_case = λ t. t;
  matches = λ p t. true;
  parse_date = λ t. some 0;
  number = plain_number;
}

abbrev plain : Service
plain = record { runtime = plain_runtime; texts = plain_texts; sign = λ l. ok ("signed", "k1") }

abbrev acme : Customer
acme = record { id = "cus_1"; name = "Acme"; status = active; created_at = 0; updated_at = 0 }

abbrev site : Deployment
site = record {
  id = "dep_1";
  customer_id = "cus_1";
  organization_id = "org_1";
  machine_fingerprint = "m1";
  name = "Site";
  status = active;
  created_at = 0;
  updated_at = 0;
}

abbrev sold : License
sold = record {
  id = "lic_1";
  revision = 1;
  deployment_id = "dep_1";
  customer_name = "Acme";
  organization_id = "org_1";
  machine_fingerprint = "m1";
  plan = "team";
  issued_at_ms = 0;
  expires_at_ms = 1000000;
  seat_limit = 10;
  grace_period_ms = 5000;
  seat_enforcement = enforce;
  billing_enforced = false;
  modules = "chat" ∷ [];
  offline = false;
  telemetry_allowed = true;
  lease_endpoint = some "https://control/lease";
  token_version = 1;
  signature = "signed";
  signing_key_id = "k1";
  revoked_at_ms = none;
  created_at = 0;
  updated_at = 0;
}

abbrev shop : Store
shop = record {
  customers = ("cus_1", acme) ∷ [];
  deployments = ("dep_1", site) ∷ [];
  licenses = ("lic_1", sold) ∷ [];
  lifecycle = [];
  seat_usage = [];
  lease_nonces = [];
  audit = record { events = []; last_sequence = 0; head_hash = genesis_hash };
}

abbrev first_change : Result (License × Store)
first_change = change_license plain sold (renewal sold 2000000 5000) "admin" 10 shop

abbrev value_of : Result (License × Store) → License × Store
value_of (ok a) = a
value_of (err f) = (sold, shop)

first_change_ok : first_change ≡ ok (value_of first_change)
unfolding change_license store_change update_of candidate renewal finish_change record_event
    update_license update_current rebind change_rebound write_change updated_row log_change
    clear_usage is_logged unique_as write_license passes_checks
first_change_ok = refl

change_license_once_example :
    change_license plain sold (renewal sold 3000000 5000) "other" 11 (value_of first_change).1
    ≡ err (conflict "License changed concurrently; reload and retry")
unfolding renewal
change_license_once_example =
    change_license_once plain sold (renewal sold 2000000 5000) (renewal sold 3000000 5000) "admin"
      "other" 10 11 shop first_change_ok refl refl

lost_revocation_example :
    (s2 : Store) × (change_license plain sold
        (renewal sold 2000000 5000)
        "admin"
        10
        (revoke_license "lic_1" 9 9 shop).1
      ≡ ok ((value_of first_change).0, s2))
    × (get "lic_1" s2.licenses ≡ some (value_of first_change).0)
    × ((value_of first_change).0.revoked_at_ms ≡ none)
lost_revocation_example =
    lost_revocation plain sold 2000000 5000 10 9 9 "admin" shop refl first_change_ok

abbrev leasing : LeaseService
leasing = record {
  base = plain;
  lease_token = λ l. "token";
  assert_key_usable = λ k. ok tt;
  sign_lease = λ l. ok ("signed", "k1");
  lease_duration_ms = 600000;
}

abbrev lease_body : Json
lease_body = object (
    entry "version" (integer (pos 1)) (
      entry "licenseId" (text "lic_1") (
        entry "deploymentId" (text "dep_1") (
          entry "organizationId" (text "org_1") (
            entry "machineFingerprint" (text "m1") (
              entry "nonce" (text "nonce-0123456789ab")
                (entry "activeSeatCount" (integer (pos 3)) no_entry)))))))

abbrev lease_of : Result (Lease × String × String) → Lease → Lease × String × String
lease_of (ok a) other = a
lease_of (err f) other = (other, "", "")

abbrev answered : Result (Lease × String × String)
answered = (issue_lease leasing "lic_1" lease_body "token" "lease_1" 500 shop).0

abbrev any_lease : Lease
any_lease = record {
  id = "lease_1";
  license_id = "lic_1";
  deployment_id = "dep_1";
  machine_fingerprint = "m1";
  license_revision = 1;
  issued_at_ms = 500;
  expires_at_ms = 600500;
  seat_limit = 10;
  active_seat_count = some 3;
  seat_status = within_limit;
  grace_reasons = [];
  grace_expires_at_ms = none;
}

answered_ok : answered ≡ ok (any_lease, "signed", "k1")
unfolding issue_lease lease_checked lease_fresh lease_seats lease_counted lease_reported
    signed_lease make_lease expiry_grace seat_grace earliest value_or report_seats seats_of
    seat_report is_changed seat_event check_lease check_bearer check_body check_binding is_version_1
    is_text is_nonce_text check_license nonce_of present object_value field is_undefined
    consume_lease_nonce live_nonces is_nonce record_license_seat_usage seat_status overage_start
    bounded record_event
answered_ok = refl

issue_lease-IsLive_example :
    (l : License) × IsEntitled "lic_1" 500 shop l × IsLive leasing l 500 any_lease
issue_lease-IsLive_example =
    issue_lease-IsLive leasing "lic_1" lease_body "token" "lease_1" 500 shop (omega arith)
      answered_ok

abbrev normal_key : String → String
normal_key k = if k === "Meeting_Audio" then "meetingaudio" else k

abbrev nested : Json
nested =
    object
      (entry "a" (array (item (object (entry "Meeting_Audio" null no_entry)) no_item)) no_entry)

nested_refused : telemetry_contains_content normal_key 0 nested ≡ true
unfolding telemetry_contains_content is_forbidden
nested_refused = refl

telemetry_contains_content_exact_example :
    telemetry_contains_content normal_key 0 nested
    ≡ (ltb 8 (depth nested) || mentions normal_key nested)
telemetry_contains_content_exact_example = telemetry_contains_content_exact normal_key nested

abbrev beat : TelemetryEvent
beat = record {
  id = "tel_1";
  organization_id = some "org_1";
  event_type = "runtime_health";
  created_at_ms = 5;
  payload = object no_entry;
  integrity = "sha256:x";
}

abbrev batch : Batch
batch = record {
  deployment_id = "dep_1";
  license_id = "lic_1";
  nonce = "n1";
  nonce_expires_at_ms = 100;
  retention_before_ms = 0;
  received_at_ms = 10;
  events = beat ∷ beat ∷ [];
}

abbrev no_telemetry : TelemetryStore
no_telemetry = record { nonces = []; rows = [] }

batch_receipt :
    (ingest_telemetry_batch batch no_telemetry).0 ≡ some (record { accepted = 1; duplicates = 1 })
unfolding ingest_telemetry_batch live_nonces insert_events retained is_event row_of
batch_receipt = refl

ingest_telemetry_batch_counts_example :
    (1 + 1 ≡ 2)
    × (length (ingest_telemetry_batch batch no_telemetry).1.rows ≡ length (retained 0 []) + 1)
    × (find (is_event "dep_1" "tel_1") (ingest_telemetry_batch batch no_telemetry).1.rows
        ≡ or_other
            (find (is_event "dep_1" "tel_1") (retained 0 []))
            (Option-map (telemetry_row batch) (find (λ e. e.id === "tel_1") (beat ∷ beat ∷ []))))
ingest_telemetry_batch_counts_example =
    ingest_telemetry_batch_counts batch no_telemetry "tel_1" batch_receipt
