-- ===== src/Billing/Records.antt =====
-- The records of src/contracts/billing.ts. Times are milliseconds, and credits are whole numbers.
-- `Metadata` keeps the members that the ledger reads; `createdAt` of a transaction, which the
-- database fills in by its own clock, is left out.
use otto_control.Prelude.{ℕ, String, Option, List, ℤ}

pub data Module : Type 0 where
  model_gateway meeting_agent park_service atoa feishu : Module
  enterprise_knowledge skill_market data_visualization document_generation : Module

pub data TransactionType : Type 0 where
  topup freeze capture release consume refund : TransactionType

pub data HoldStatus : Type 0 where
  active captured released expired : HoldStatus

pub record Account : Type 0 where
  pub customer_id : String
  pub organization_id : String
  pub available_balance : ℕ
  pub frozen_balance : ℕ
  pub total_topped_up : ℕ
  pub total_consumed : ℕ
  pub total_refunded : ℕ
  pub version : ℕ
  pub updated_at : ℕ

pub record BillingRate : Type 0 where
  pub customer_id : String
  pub module_id : Module
  pub unit_size : ℕ
  pub credits_per_unit : ℕ
  pub updated_by : String
  pub created_at : ℕ
  pub updated_at : ℕ

pub record Hold : Type 0 where
  pub id : String
  pub customer_id : String
  pub organization_id : String
  pub deployment_id : String
  pub module_id : Module
  pub amount : ℕ
  pub status : HoldStatus
  pub idempotency_key : String
  pub expires_at : ℕ
  pub created_at : ℕ
  pub updated_at : ℕ

-- A member that the object lacks is `none`; `other` stands for the members that are only stored.
pub record Metadata : Type 0 where
  pub hold_id : Option String
  pub execution_receipt_id : Option String
  pub receipt_verification_status : Option String
  pub other : List (String × String)

pub record Transaction : Type 0 where
  pub id : String
  pub customer_id : String
  pub organization_id : Option String
  pub deployment_id : Option String
  pub module_id : Option Module
  pub kind : TransactionType
  pub available_delta : ℤ
  pub frozen_delta : ℤ
  pub billed_amount : ℕ
  pub available_after : ℕ
  pub frozen_after : ℕ
  pub idempotency_key : String
  pub reference_id : Option String
  pub related_transaction_id : Option String
  pub description : String
  pub metadata : Metadata
  pub occurred_at : ℕ
