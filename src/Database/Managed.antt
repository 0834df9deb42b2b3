-- ===== src/Database/Managed.antt =====
-- The `TradingSession` and `TradingCycle` rows.
use crypto_sim_backend.Common.{ℕ, Bool, true, false, Option, Text}
use crypto_sim_backend.Database.Users.{AccountType}

pub data TradingSessionStatus : Type 0 where
  active stopped paused : TradingSessionStatus

pub data CycleStatus : Type 0 where
  pending running completed failed : CycleStatus

pub record TradingSession : Type 0 where
  pub id : ℕ
  pub user_id : ℕ
  pub user_name : Text
  pub status : TradingSessionStatus
  pub cycle_interval_sec : ℕ
  pub asset_type : Text
  pub account_type : AccountType
  pub created_by_id : ℕ
  pub created_by_name : Option Text
  pub stopped_at : Option ℕ

abbrev pub trading_session_key : TradingSession → ℕ
trading_session_key s = s.id

pub record TradingCycle : Type 0 where
  pub id : ℕ
  pub trading_session_id : ℕ
  pub cycle_number : ℕ
  pub asset_type : Text
  pub start_time : ℕ
  pub end_time : ℕ
  pub duration_sec : ℕ
  pub start_price : Option ℕ
  pub end_price : Option ℕ
  pub status : CycleStatus
  pub transaction_count : ℕ

abbrev pub cycle_key : TradingCycle → ℕ
cycle_key c = c.id

abbrev pub is_live : TradingSessionStatus → Bool
is_live TradingSessionStatus.active = true
is_live TradingSessionStatus.stopped = false
is_live TradingSessionStatus.paused = false

abbrev pub is_running : CycleStatus → Bool
is_running CycleStatus.running = true
is_running CycleStatus.pending = false
is_running CycleStatus.completed = false
is_running CycleStatus.failed = false

-- PENDING or RUNNING
abbrev pub is_unfinished : CycleStatus → Bool
is_unfinished CycleStatus.pending = true
is_unfinished CycleStatus.running = true
is_unfinished CycleStatus.completed = false
is_unfinished CycleStatus.failed = false
