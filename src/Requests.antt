-- ===== src/Requests.antt =====
-- What the services read out of the body of a request: `objectValue` and `requiredString` of
-- src/modules/commercial-control/service.ts and src/modules/update-policy/service.ts.
use otto_control.Prelude.{
  ℕ, String, ◌===◌, Bool, true, false, Option, none, some, ltb, if◌then◌else◌, ℤ,
}
use otto_control.Errors.{Failure, Result, ok, err, invalid_request}
use otto_control.Audit.Canonical.{Json, undefined, text, object, Entries, no_entry, entry}

-- The regular expressions that the services test texts with; each service has its own `Texts`.
pub data Pattern : Type 0 where
  distribution_id deployment_id machine_fingerprint source_commit nonce nonce_or_dotted id_part :
      Pattern

-- What the platform does with texts: `trim`, `length`, `toLowerCase`, the test of a pattern,
-- `Date.parse`, and `Number` of a value where that is an integer.
pub record Texts : Type 0 where
  pub trim : String → String
  pub text_length : String → ℕ
  pub to_lower_case : String → String
  pub matches : Pattern → String → Bool
  pub parse_date : String → Option ℕ
  pub number : Json → Option ℤ

unfoldable pub object_value : Json → Result Entries
object_value (object es) = ok es
object_value _ = err (invalid_request "request body must be an object")

unfoldable pub field : String → Entries → Json
field key no_entry = undefined
field key (entry k v es) = let rest = field key es in if k === key then v else rest

-- `typeof value === 'string' ? value.trim() : ''`.
unfoldable pub trimmed : Texts → Json → String
trimmed ts (text t) = ts.trim t
trimmed ts _ = ""

unfoldable pub required_string : Texts → Entries → String → ℕ → Result String
required_string ts body key max_length =
    let value = trimmed ts (field key body) in
    if value === ""
    then err (invalid_request "required")
    else if ltb max_length (ts.text_length value)
    then err (invalid_request "too long")
    else ok value

unfoldable pub is_undefined : Json → Bool
is_undefined undefined = true
is_undefined _ = false

-- A row, or the failure for a missing one.
unfoldable pub present {ℓ} : {A : Type ℓ} → Option A → Failure → Result A
present none failure = err failure
present (some a) failure = ok a
