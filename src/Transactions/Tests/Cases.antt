-- ===== src/Transactions/Tests/Cases.antt =====
-- Concrete rows and calls of the trades' model, and what the calls compute.
use crypto_sim_backend.Common.{
  ℕ, ◌≡◌, refl, pos, neg_ℕ, ◌+ℤ◌, ◌-ℤ◌, false, List, [], ◌∷◌, none, some, text, err,
}
use crypto_sim_backend.Samples.{alice, start}
use crypto_sim_backend.Database.{TransactionStatus, AccountType, TradeDirection}
use crypto_sim_backend.Transactions.Inputs.{
  Error, ForcedResult, CreateTransactionDto, AdminCreateTransactionDto,
}
use crypto_sim_backend.Transactions.Hours.{PacificTime, Weekday, is_closed}
use crypto_sim_backend.Transactions.Durations.{includes_duration, normalize_trade_durations}
use crypto_sim_backend.Transactions.Reasons.{
  PendingForceSettleConfig, build_pending_force_settle_reason, parse_pending_force_settle_reason,
}
use crypto_sim_backend.Transactions.Balances.{win_return, actual_return_of, spread_of, win_rate_of}
use crypto_sim_backend.Transactions.Create.{
  Surroundings, create_transaction, new_row, check_account, insert_trade, latest_active,
}
use crypto_sim_backend.Transactions.AdminCreate.{admin_create_transaction, admin_row}
use crypto_sim_backend.Transactions.Cancel.{
  ForceSettleParams, force_settle_transaction, force_settled_row, cancel_transaction,
}
use crypto_sim_backend.Transactions.Settle.{
  settle_transaction, settle_transaction_by_system, apply_settlement, is_win, settled_row,
  resolve_exit_price,
}
use crypto_sim_backend.Transactions.AutoSettle.{
  auto_settle_expired_transactions, settle_each, settle_expired,
}
use crypto_sim_backend.Transactions.Calls.{
  Call, creates, admin_creates, settles, cancels, forces, scans, step, run,
}
use crypto_sim_backend.Transactions.Tests.Codec.{codec}

abbrev pub monday : PacificTime
monday = record { day = Weekday.mon; hour = 9; minute = 30 }

abbrev pub surroundings : ℕ → ℕ → Surroundings
surroundings now order = record {
  now = now;
  pacific = monday;
  order_number = order;
  managed_mode = false;
}

abbrev pub real_order : CreateTransactionDto
real_order = record {
  asset_type = text "BTC";
  direction = TradeDirection.call;
  duration = 60;
  entry_price = 40000;
  invest_amount = 300;
  return_rate = 8500;
  account_type = some AccountType.real;
}

abbrev pub demo_order : CreateTransactionDto
demo_order = record real_order { account_type = none }

abbrev pub admin_order : AdminCreateTransactionDto
admin_order = record {
  user_id = 1;
  asset_type = text "ETH";
  direction = TradeDirection.put;
  duration = 60;
  entry_price = 2000;
  invest_amount = 100;
  return_rate = 8000;
  account_type = some AccountType.real;
  entry_time = none;
  exit_price = none;
  status = none;
  auto_settle = none;
  reason = none;
}

-- Created with the status SETTLED, so that its stake is not taken.
abbrev pub settled_order : AdminCreateTransactionDto
settled_order = record admin_order {
  status = some TransactionStatus.settled;
  exit_price = some 2100;
}

abbrev pub force_win : ForceSettleParams
force_win = record {
  exit_price = none;
  result = some ForcedResult.win;
  reason = none;
  operator_id = 9;
  operator_name = some (text "root");
}

abbrev pub instruction : PendingForceSettleConfig
instruction = record {
  result = some ForcedResult.win;
  exit_price = some (some (neg_ℕ 3));
  reason = some (text "ok");
  operator_id = some 9;
  operator_name = none;
  marked_at = 77;
}

abbrev pub history : List Call
history =
    creates (surroundings 1000 10) 1 real_order
    ∷ creates (surroundings 2000 11) 1 demo_order
    ∷ admin_creates (surroundings 3000 12) admin_order 9 none
    ∷ forces 4000 10 force_win
    ∷ cancels 11 1
    ∷ settles 61000 none 10 (pos 41000) 1
    ∷ scans (λ _. some (pos 1900)) 70000
    ∷ []

-- The forced win returns 255 on a stake of 300; the administrator's real trade is lost at expiry.
history_balance :
    (run codec start history).users
    ≡ record alice {
      real_balance = pos 1155;
      total_profit_loss = pos 155;
      total_trades = 2;
      win_rate = 5000;
    }
      ∷ []
unfolding run step create_transaction admin_create_transaction force_settle_transaction
    cancel_transaction settle_transaction settle_transaction_by_system
    auto_settle_expired_transactions settle_each settle_expired is_closed ◌-ℤ◌ ◌+ℤ◌
    force_settled_row resolve_exit_price parse_pending_force_settle_reason admin_row
    actual_return_of spread_of win_rate_of win_return check_account insert_trade latest_active
    new_row build_pending_force_settle_reason apply_settlement is_win settled_row includes_duration
    normalize_trade_durations
history_balance = refl

-- The order number is taken.
create_twice :
    create_transaction
      (surroundings 2000 10)
      1
      real_order
      (run codec start (creates (surroundings 1000 10) 1 real_order ∷ []))
    ≡ err Error.duplicate_order_number
unfolding run step create_transaction admin_create_transaction force_settle_transaction
    cancel_transaction settle_transaction settle_transaction_by_system
    auto_settle_expired_transactions settle_each settle_expired is_closed ◌-ℤ◌ ◌+ℤ◌
    force_settled_row resolve_exit_price parse_pending_force_settle_reason admin_row
    actual_return_of spread_of win_rate_of win_return check_account insert_trade latest_active
    new_row build_pending_force_settle_reason apply_settlement is_win settled_row includes_duration
    normalize_trade_durations
create_twice = refl
