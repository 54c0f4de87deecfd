-- ===== src/Billing/Pricing.antt =====
-- Rates and prices: `setBillingRate` and `getBillingRate` of src/storage/postgres-store.ts and
-- `#price` of src/modules/billing/service.ts. `Math.ceil(units / unitSize)` is a division of doubles;
-- below 2^53 it is the exact quotient rounded up, and the service bounds units by 9e12.
use native.Mathlib.Nat.{mul-le-mul_right}
use otto_control.Prelude.{
  ℕ, ◌+◌, ◌-◌, ◌*◌, ◌/◌, ◌≤◌, ◌<◌, String, ◌===◌, Bool, ◌&&◌, Option, none, some, ◌∷◌, find, any,
  leb, ltb, if◌then◌else◌, ◌≡◌, arith, select, not,
}
use Prim.Native.String.{◌++◌}
use otto_control.Errors.{Result, ok, err, conflict, database, check_violation}
use otto_control.Billing.Records.{
  Module, model_gateway, meeting_agent, park_service, atoa, feishu, enterprise_knowledge,
  skill_market, data_visualization, document_generation, BillingRate,
}
use otto_control.Billing.Tables.{Ledger, is_module}

abbrev pub max_credits : ℕ
max_credits = 9_000_000_000_000_000

-- `Number.MAX_SAFE_INTEGER`.
abbrev pub max_safe : ℕ
max_safe = 9_007_199_254_740_991

pub module_name : Module → String
module_name model_gateway = "model_gateway"
module_name meeting_agent = "meeting_agent"
module_name park_service = "park_service"
module_name atoa = "atoa"
module_name feishu = "feishu"
module_name enterprise_knowledge = "enterprise_knowledge"
module_name skill_market = "skill_market"
module_name data_visualization = "data_visualization"
module_name document_generation = "document_generation"

abbrev pub is_rate : String → Module → BillingRate → Bool
is_rate c m r = r.customer_id === c && is_module r.module_id m

unfoldable pub get_billing_rate : Ledger → String → Module → Option BillingRate
get_billing_rate l c m = find (is_rate c m) l.rates

-- `INSERT … ON CONFLICT (customer_id, module) DO UPDATE`: the row's time of creation stays.
unfoldable pub set_billing_rate : Ledger → BillingRate → Result (BillingRate × Ledger)
set_billing_rate l r =
    let created : ℕ = elim (find (is_rate r.customer_id r.module_id) l.rates) [
      | some old ↦ old.created_at
      | none ↦ r.updated_at
    ] in
    let row : BillingRate = record r { created_at = created } in
    let others = select (λ x. not (is_rate r.customer_id r.module_id x)) l.rates in
    if ltb 0 r.unit_size && ltb 0 r.credits_per_unit
    then (if any (λ x. x === r.customer_id) l.customers
        then ok (row, record l { rates = row ∷ others })
        else err (conflict "customer does not exist"))
    else err (database check_violation)

unfoldable pub ceil_div : ℕ → ℕ → ℕ
ceil_div n d = (n + d - 1) / d

unfoldable pub price_at : BillingRate → ℕ → Result ℕ
price_at r units =
    let amount = ceil_div units r.unit_size * r.credits_per_unit in
    if leb amount max_safe && leb amount max_credits
    then ok amount
    else err (conflict "calculated charge exceeds the supported range")

unfoldable pub price : Ledger → String → Module → ℕ → Result ℕ
price l c m units = elim (get_billing_rate l c m) [
  | none ↦ err (conflict ("billing rate is not configured for " ++ module_name m))
  | some r ↦ price_at r units
]

-- The quotient rounded up is the least number of whole rate units that covers the usage.
ceil_div_bounds : (n d : ℕ) → 0 < d → (n ≤ ceil_div n d * d) × (ceil_div n d * d < n + d)
unfolding ceil_div
ceil_div_bounds n d h = grind arith

-- The price that is charged: whole rate units, at least the usage and less than one rate unit more,
-- within the range of the ledger.
pub price_bounds :
    (l : Ledger) (c : String) (m : Module) (units amount : ℕ) (r : BillingRate)
    → get_billing_rate l c m ≡ some r
    → 0 < r.unit_size
    → price l c m units ≡ ok amount
    → (units * r.credits_per_unit ≤ amount * r.unit_size)
      × (amount * r.unit_size ≤ (units + r.unit_size - 1) * r.credits_per_unit)
      × (amount ≤ max_credits)
unfolding price price_at
price_bounds l c m units amount r there pos e =
    let (low, high) = ceil_div_bounds units r.unit_size pos in
    let q = ceil_div units r.unit_size in
    let charged = rw (there, price) at e in
    let is : q * r.credits_per_unit ≡ amount = ground (arith, charged) in
    let times = mul-le-mul_right r.credits_per_unit low in
    let most = mul-le-mul_right r.credits_per_unit (below high) in
    (rw (← is) (omega (arith, times)), rw (← is) (omega (arith, most)), ground (arith, charged))
  where
    below : {x n : ℕ} → x < n → x ≤ n - 1
    below h = omega (arith, h)
