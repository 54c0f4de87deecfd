-- ===== src/Billing/Tables.antt =====
-- The four credit tables of src/storage/migrations.ts (008 and 028) as one state, with the
-- statements of src/storage/postgres-store.ts that read and write them. A transaction of the
-- database holds the row locks of its account to its end, so each is one step on this state.
use otto_control.Prelude.{
  ℕ, ◌+◌, ◌-◌, String, ◌===◌, ◌=?◌, Bool, true, false, ◌&&◌, ◌||◌, Option, none, some, List, ◌∷◌,
  map, leb, ltb, find, any, total, if◌then◌else◌,
}
use otto_control.Errors.{
  Result, ok, err, database, foreign_key_violation, unique_violation, check_violation, conflict,
}
use otto_control.Billing.Records.{
  Account, BillingRate, Hold, HoldStatus, active, Transaction, TransactionType, Module, topup,
  freeze, capture, release, consume, refund, model_gateway, meeting_agent, park_service, atoa,
  feishu, enterprise_knowledge, skill_market, data_visualization, document_generation,
}

-- The accounts are keyed by customer and organization, which is their primary key.
pub record Ledger : Type 0 where
  pub customers : List String
  pub rates : List BillingRate
  pub accounts : String → String → Option Account
  pub holds : List Hold
  pub transactions : List Transaction

abbrev pub max_balance : ℕ
max_balance = 9_000_000_000_000_000

abbrev pub is_module : Module → Module → Bool
is_module model_gateway model_gateway = true
is_module meeting_agent meeting_agent = true
is_module park_service park_service = true
is_module atoa atoa = true
is_module feishu feishu = true
is_module enterprise_knowledge enterprise_knowledge = true
is_module skill_market skill_market = true
is_module data_visualization data_visualization = true
is_module document_generation document_generation = true
is_module _ _ = false

abbrev pub is_kind : TransactionType → TransactionType → Bool
is_kind topup topup = true
is_kind freeze freeze = true
is_kind capture capture = true
is_kind release release = true
is_kind consume consume = true
is_kind refund refund = true
is_kind _ _ = false

abbrev pub is_active : HoldStatus → Bool
is_active active = true
is_active _ = false

-- `WHERE customer_id = $1 AND organization_id = $2`.
abbrev pub is_key : String → String → String → String → Bool
is_key c o c' o' = c === c' && o === o'

abbrev pub put_account : Ledger → String → String → Account → String → String → Option Account
put_account l c o a c' o' = if is_key c o c' o' then some a else l.accounts c' o'

-- A row of defaults: every balance is 0 and the version is 1.
abbrev pub new_account : String → String → ℕ → Account
new_account c o now = record {
  customer_id = c;
  organization_id = o;
  available_balance = 0;
  frozen_balance = 0;
  total_topped_up = 0;
  total_consumed = 0;
  total_refunded = 0;
  version = 1;
  updated_at = now;
}

-- `INSERT INTO control_enterprise_credit_accounts … ON CONFLICT DO NOTHING`.
unfoldable pub ensure_account : Ledger → String → String → ℕ → Result Ledger
ensure_account l c o now = elim (l.accounts c o) [
  | some a ↦ ok l
  | none ↦
      if any (λ x. x === c) l.customers
      then ok (record l { accounts = put_account l c o (new_account c o now) })
      else err (database foreign_key_violation)
]

-- What an `UPDATE` of an account adds to and takes from its columns.
pub record Change : Type 0 where
  pub available_plus : ℕ
  pub available_minus : ℕ
  pub frozen_plus : ℕ
  pub frozen_minus : ℕ
  pub topped_up : ℕ
  pub consumed : ℕ
  pub refunded : ℕ

abbrev pub no_change : Change
no_change = record {
  available_plus = 0;
  available_minus = 0;
  frozen_plus = 0;
  frozen_minus = 0;
  topped_up = 0;
  consumed = 0;
  refunded = 0;
}

-- `x + plus - minus BETWEEN 0 AND 9000000000000000`.
abbrev pub in_range : ℕ → ℕ → ℕ → Bool
in_range x plus minus = leb minus (x + plus) && leb (x + plus - minus) max_balance

abbrev pub passes_checks : Account → Change → Bool
passes_checks a d =
    in_range a.available_balance d.available_plus d.available_minus
    && in_range a.frozen_balance d.frozen_plus d.frozen_minus
    && leb (a.total_topped_up + d.topped_up) max_balance
    && leb (a.total_consumed + d.consumed) max_balance
    && leb (a.total_refunded + d.refunded) max_balance

abbrev pub changed_account : Account → Change → ℕ → Account
changed_account a d now = record a {
  available_balance = a.available_balance + d.available_plus - d.available_minus;
  frozen_balance = a.frozen_balance + d.frozen_plus - d.frozen_minus;
  total_topped_up = a.total_topped_up + d.topped_up;
  total_consumed = a.total_consumed + d.consumed;
  total_refunded = a.total_refunded + d.refunded;
  version = a.version + 1;
  updated_at = now;
}

-- `UPDATE control_enterprise_credit_accounts SET … RETURNING *`, under the table's checks.
unfoldable pub update_account : Account → Change → ℕ → Result Account
update_account a d now =
    if passes_checks a d then ok (changed_account a d now) else err (database check_violation)

-- The unique index on customer, organization and idempotency key. A row with a null organization
-- equals no text.
abbrev pub is_keyed : String → String → String → Transaction → Bool
is_keyed c o key t = t.customer_id === c && t.organization_id =? some o && t.idempotency_key === key

unfoldable pub find_transaction : Ledger → String → String → String → Option Transaction
find_transaction l c o key = find (is_keyed c o key) l.transactions

abbrev pub clashes : Transaction → Transaction → Bool
clashes t u =
    u.id === t.id
    || (u.customer_id === t.customer_id
        && u.organization_id =? t.organization_id
        && u.idempotency_key === t.idempotency_key)

-- `INSERT INTO control_credit_transactions`, under its primary key and its unique index.
unfoldable pub insert_transaction : Transaction → List Transaction → Result (List Transaction)
insert_transaction t ts =
    if any (clashes t) ts then err (database unique_violation) else ok (t ∷ ts)

abbrev pub hold_clashes : Hold → Hold → Bool
hold_clashes h k =
    k.id === h.id
    || (k.customer_id === h.customer_id
        && k.organization_id === h.organization_id
        && k.idempotency_key === h.idempotency_key)

-- `INSERT INTO control_credit_holds`, whose amount must be positive.
unfoldable pub insert_hold : Hold → List Hold → Result (List Hold)
insert_hold h hs =
    if any (hold_clashes h) hs
    then err (database unique_violation)
    else if ltb 0 h.amount
    then ok (h ∷ hs)
    else err (database check_violation)

-- `SELECT * FROM control_credit_holds WHERE id = $1 AND customer_id = $2`.
unfoldable pub find_hold : String → String → List Hold → Option Hold
find_hold id c hs = find (λ h. h.id === id && h.customer_id === c) hs

abbrev pub marked : HoldStatus → ℕ → Hold → Hold
marked s now h = record h { status = s; updated_at = now }

-- `UPDATE control_credit_holds SET status = $2, updated_at = $3 WHERE id = $1`.
unfoldable pub mark_hold : String → HoldStatus → ℕ → List Hold → List Hold
mark_hold id s now hs = map (λ h. if h.id === id then marked s now h else h) hs

-- `SELECT SUM(billed_amount) … WHERE related_transaction_id = $1 AND type = 'refund'`.
abbrev pub refund_part : String → Transaction → ℕ
refund_part id t =
    if t.related_transaction_id =? some id && is_kind t.kind refund then t.billed_amount else 0

unfoldable pub refunded_total : String → List Transaction → ℕ
refunded_total id ts = total (refund_part id) ts

-- The `catch` blocks: which raw database errors an operation turns into a conflict.
unfoldable pub catching {ℓ} : {A : Type ℓ} → Bool → Bool → Result A → Result A
catching fk check (ok a) = ok a
catching fk check (err (database foreign_key_violation)) =
    err (if fk then conflict "customer does not exist" else database foreign_key_violation)
catching fk check (err (database check_violation)) =
    err (if check then conflict "credit ledger limit exceeded" else database check_violation)
catching fk check (err e) = err e
