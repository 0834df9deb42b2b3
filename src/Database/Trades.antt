-- ===== src/Database/Trades.antt =====
-- The `TransactionLog` and `MarketSession` rows.
use crypto_sim_backend.Common.{ltb, ℕ, ℤ, Bool, true, false, Option, Text, List}
use crypto_sim_backend.Database.Users.{AccountType}

pub data TradeDirection : Type 0 where
  call put : TradeDirection

pub data TransactionStatus : Type 0 where
  pending settled canceled : TransactionStatus

-- Entry prices and stakes are positive and rates not negative, by the checks of the DTOs; a later
-- price may be any amount. `return_rate` is in units of 10^-4.
-- The row's identity is its unique order number.
pub record TransactionLog : Type 0 where
  pub order_number : ℕ
  pub user_id : ℕ
  pub user_name : Text
  pub account_type : AccountType
  pub asset_type : Text
  pub direction : TradeDirection
  pub entry_time : ℕ
  pub expiry_time : ℕ
  pub duration : ℕ
  pub entry_price : ℕ
  pub current_price : Option ℤ
  pub exit_price : Option ℤ
  pub spread : ℕ
  pub invest_amount : ℕ
  pub entry_account_balance : Option ℤ
  pub return_rate : ℕ
  pub actual_return : ℤ
  pub settled_account_balance : Option ℤ
  pub status : TransactionStatus
  pub settled_at : Option ℕ
  pub manual_adjusted : Bool
  pub manual_adjusted_by_id : Option ℕ
  pub manual_adjusted_by_name : Option Text
  pub manual_adjustment_reason : Option Text
  pub manual_adjusted_at : Option ℕ
  pub is_managed : Bool
  pub trading_cycle_id : Option ℕ
  pub market_session_id : Option ℕ
  pub created_at : ℕ

-- `orderBy: { createdAt: 'desc' }`
abbrev pub is_newer : TransactionLog → TransactionLog → Bool
is_newer t u = ltb u.created_at t.created_at

abbrev pub order_key : TransactionLog → ℕ
order_key t = t.order_number

abbrev pub is_pending : TransactionStatus → Bool
is_pending TransactionStatus.pending = true
is_pending TransactionStatus.settled = false
is_pending TransactionStatus.canceled = false

abbrev pub is_settled : TransactionStatus → Bool
is_settled TransactionStatus.pending = false
is_settled TransactionStatus.settled = true
is_settled TransactionStatus.canceled = false

abbrev pub is_canceled : TransactionStatus → Bool
is_canceled TransactionStatus.pending = false
is_canceled TransactionStatus.settled = false
is_canceled TransactionStatus.canceled = true

pub data MarketSessionStatus : Type 0 where
  pending active completed canceled : MarketSessionStatus

pub data MarketResult : Type 0 where
  pending win lose : MarketResult

-- One rule of the JSON column `tradeTypes`.
pub record TradeTypeRule : Type 0 where
  pub asset_type : Text
  pub durations : List ℕ

pub record MarketSession : Type 0 where
  pub id : ℕ
  pub name : Text
  pub description : Option Text
  pub start_time : ℕ
  pub end_time : ℕ
  pub initial_result : MarketResult
  pub actual_result : Option MarketResult
  pub status : MarketSessionStatus
  pub trade_types : Option (List TradeTypeRule)
  pub asset_type : Option Text
  pub created_by_id : ℕ
  pub created_by_name : Option Text

abbrev pub session_key : MarketSession → ℕ
session_key s = s.id

abbrev pub is_active : MarketSessionStatus → Bool
is_active MarketSessionStatus.active = true
is_active MarketSessionStatus.pending = false
is_active MarketSessionStatus.completed = false
is_active MarketSessionStatus.canceled = false
