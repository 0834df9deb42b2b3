-- ===== src/Transactions/Inputs.antt =====
-- The DTOs and options that the methods of TransactionLogService take, and what they throw.
use crypto_sim_backend.Common.{ℕ, Bool, false, Option, Text, none}
use crypto_sim_backend.Database.{AccountType, TradeDirection, TransactionStatus}

pub data Error : Type 0 where
  market_closed user_not_found insufficient_balance not_verified duration_not_allowed : Error
  order_not_found not_owner order_canceled order_settled not_cancelable : Error
  exit_price_required price_unavailable duplicate_order_number : Error

pub data ForcedResult : Type 0 where
  win lose : ForcedResult

pub record CreateTransactionDto : Type 0 where
  pub asset_type : Text
  pub direction : TradeDirection
  pub duration : ℕ
  pub entry_price : ℕ
  pub invest_amount : ℕ
  pub return_rate : ℕ
  pub account_type : Option AccountType

pub record AdminCreateTransactionDto : Type 0 where
  pub user_id : ℕ
  pub asset_type : Text
  pub direction : TradeDirection
  pub duration : ℕ
  pub entry_price : ℕ
  pub invest_amount : ℕ
  pub return_rate : ℕ
  pub account_type : Option AccountType
  pub entry_time : Option ℕ
  pub exit_price : Option ℕ
  pub status : Option TransactionStatus
  pub auto_settle : Option Bool
  pub reason : Option Text

pub record SettleTransactionOptions : Type 0 where
  pub forced_result : Option ForcedResult
  pub reason : Option Text
  pub operator_id : Option ℕ
  pub operator_name : Option Text
  pub manual : Bool

abbrev pub no_options : SettleTransactionOptions
no_options = record {
  forced_result = none;
  reason = none;
  operator_id = none;
  operator_name = none;
  manual = false;
}
