-- ===== src/Errors.antt =====
-- src/errors.ts: the failures that the services raise, with the codes that PostgreSQL raises by
-- itself. A failure keeps its message, because one caller reads it.
use otto_control.Prelude.{String, ℕ, Bool, true, false, ◌≡◌, refl, ◌⊎◌, inl, inr}

-- The SQLSTATE codes that the stores distinguish: 23503, 23505 and 23514.
pub data SqlState : Type 0 where
  foreign_key_violation unique_violation check_violation : SqlState

pub data Failure : Type 0 where
  invalid_request unauthorized forbidden not_found conflict : String → Failure
  rate_limited capacity_exceeded approval_required : String → Failure
  database : SqlState → Failure
  type_error : Failure

-- The HTTP status of a failure. Other errors are no `ControlPlaneError` and become a 500.
unfoldable pub status_code : Failure → ℕ
status_code (invalid_request _) = 400
status_code (unauthorized _) = 401
status_code (forbidden _) = 403
status_code (not_found _) = 404
status_code (conflict _) = 409
status_code (rate_limited _) = 429
status_code (capacity_exceeded _) = 429
status_code (approval_required _) = 428
status_code (database _) = 500
status_code type_error = 500

-- What a method answers, or the failure that it throws.
pub data Result {κ} (R : Type κ) : Type κ where
  err : Failure → Result R
  ok : R → Result R

pub Result-cases {ℓ} :
    {A : Type ℓ} (m : Result A) → ((a : A) × (m ≡ ok a)) ⊎ ((e : Failure) × (m ≡ err e))
Result-cases (ok a) = inl (a, refl)
Result-cases (err e) = inr (e, refl)

-- `if (!test) throw failure`.
abbrev pub ensure : Bool → Failure → Result (Unit {0})
ensure false failure = err failure
ensure true failure = ok tt

-- A statement and the rest of the method: a failure skips the rest.
infixl 5 ◌>>=◌
abbrev pub ◌>>=◌ {κ ℓ} : {R : Type κ} {S : Type ℓ} → Result R → (R → Result S) → Result S
err failure >>= rest = err failure
ok r >>= rest = rest r

-- The value of a successful result is determined.
pub ok_inj {ℓ} : {A : Type ℓ} {a b : A} → ok a ≡ ok b → a ≡ b
ok_inj e = cc

-- Where both succeed, what the first gave and how the second went on.
pub >>=-eq-ok {κ ℓ} :
    {R : Type κ} {S : Type ℓ} (first : Result R) (rest : R → Result S) {s : S}
    → (first >>= rest) ≡ ok s
    → (r : R) × (first ≡ ok r) × (rest r ≡ ok s)
>>=-eq-ok (err failure) rest went = cc
>>=-eq-ok (ok r) rest went = (r, refl, went)

-- The same where the first gives nothing.
infixl 5 ◌>>◌
abbrev pub ◌>>◌ {κ} : {S : Type κ} → Result (Unit {0}) → Result S → Result S
first >> rest = first >>= λ done. rest

pub ensure-eq-ok {κ} :
    {S : Type κ} (test : Bool) (failure : Failure) (rest : Result S) {s : S}
    → (ensure test failure >> rest) ≡ ok s
    → (test ≡ true) × (rest ≡ ok s)
ensure-eq-ok false failure rest went = cc
ensure-eq-ok true failure rest went = (refl, went)
