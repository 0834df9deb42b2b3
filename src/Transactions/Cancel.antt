-- ===== src/Transactions/Cancel.antt =====
-- `cancelTransaction`, `updateCurrentPrice`, `getTransactionByOrderNumber` and
-- `forceSettleTransaction`.
use crypto_sim_backend.Common.{
  ℕ, ℤ, pos, ◌+ℤ◌, true, not, Option, some, or_else, Text, Result, ok, ◌>>=◌, ◌>>◌, throw_if,
  or_throw, ◌==◌,
}
use crypto_sim_backend.Common.Table.{find_unique, update}
use crypto_sim_backend.Database.{
  Database, User, user_id, AccountType, balance_of, set_balance, TransactionLog, TransactionStatus,
  order_key, is_pending, is_settled, is_canceled,
}
use crypto_sim_backend.Transactions.Inputs.{Error, ForcedResult}
use crypto_sim_backend.Transactions.Reasons.{
  Json, PendingForceSettleConfig, build_pending_force_settle_reason,
}

abbrev pub credit : AccountType → ℤ → User → User
credit account amount u = set_balance account (balance_of account u +ℤ amount) u

abbrev pub canceled_row : TransactionLog → TransactionLog
canceled_row t = record t { status = TransactionStatus.canceled; actual_return = pos 0 }

unfoldable pub cancel_transaction : ℕ → ℕ → Database → Result Error (TransactionLog × Database)
cancel_transaction order user db = do
  t ← or_throw (find_unique order_key order db.transaction_logs) Error.order_not_found
  throw_if (not (t.user_id == user)) Error.not_owner
  throw_if (not (is_pending t.status)) Error.not_cancelable
  ok (
    canceled_row t,
    record db {
      transaction_logs = update order_key order canceled_row db.transaction_logs;
      users = update user_id t.user_id (credit t.account_type (pos t.invest_amount)) db.users;
    },
  )

unfoldable pub update_current_price : ℕ → ℕ → Database → Result Error (TransactionLog × Database)
update_current_price order price db = do
  t ← or_throw (find_unique order_key order db.transaction_logs) Error.order_not_found
  let row = record t { current_price = some (pos price) }
  ok (row, record db { transaction_logs = update order_key order (λ _. row) db.transaction_logs })

unfoldable pub get_transaction_by_order_number : ℕ → ℕ → Database → Result Error TransactionLog
get_transaction_by_order_number order user db = do
  t ← or_throw (find_unique order_key order db.transaction_logs) Error.order_not_found
  throw_if (not (t.user_id == user)) Error.not_owner
  ok t

-- A price may be missing or `null`.
pub record ForceSettleParams : Type 0 where
  pub exit_price : Option (Option ℤ)
  pub result : Option ForcedResult
  pub reason : Option Text
  pub operator_id : ℕ
  pub operator_name : Option Text

abbrev pub pending_config : ℕ → ForceSettleParams → PendingForceSettleConfig
pending_config now params = record {
  result = params.result;
  exit_price = params.exit_price;
  reason = params.reason;
  operator_id = some params.operator_id;
  operator_name = params.operator_name;
  marked_at = now;
}

module _ (json : Json) where
  unfoldable pub force_settled_row : ℕ → ForceSettleParams → TransactionLog → TransactionLog
  force_settled_row now params t = record t {
    manual_adjusted = true;
    manual_adjusted_by_id = some params.operator_id;
    manual_adjusted_by_name = or_else params.operator_name t.manual_adjusted_by_name;
    manual_adjustment_reason =
        some (build_pending_force_settle_reason json (pending_config now params));
    manual_adjusted_at = some now;
  }

  -- Only an instruction is written: the trade stays open.
  unfoldable pub force_settle_transaction :
      ℕ → ℕ → ForceSettleParams → Database → Result Error (TransactionLog × Database)
  force_settle_transaction now order params db = do
    t ← or_throw (find_unique order_key order db.transaction_logs) Error.order_not_found
    throw_if (is_canceled t.status) Error.order_canceled
    throw_if (is_settled t.status) Error.order_settled
    let row = force_settled_row now params t
    ok (row, record db { transaction_logs = update order_key order (λ _. row) db.transaction_logs })
