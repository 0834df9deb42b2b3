-- ===== src/Transactions/Settle.antt =====
-- `settleTransactionBySystem` and `settleTransaction`.
use crypto_sim_backend.Common.{
  ℕ, ℤ, pos, ◌+ℤ◌, ltb_ℤ, Bool, true, false, not, [], ◌∷◌, ◌++◌, Option, none, some, or_else,
  get_or, Text, text, Result, ok, err, ◌>>=◌, ◌>>◌, throw_if, or_throw, ◌==◌, if◌then◌else◌,
}
use crypto_sim_backend.Common.Table.{find_unique, update}
use crypto_sim_backend.Database.{
  Database, AccountType, TradeDirection, TransactionLog, TransactionStatus, order_key, is_settled,
  is_canceled,
}
use crypto_sim_backend.Transactions.Inputs.{
  Error, ForcedResult, SettleTransactionOptions, no_options,
}
use crypto_sim_backend.Transactions.Reasons.{
  Json, PendingForceSettleConfig, parse_pending_force_settle_reason,
}
use crypto_sim_backend.Transactions.Balances.{actual_return_of, update_user_account_after_settle}

-- A price in a comparison, where JavaScript reads `null` as 0.
abbrev pub compared : Option ℤ → ℤ
compared none = pos 0
compared (some p) = p

-- A real trade with no forced result is lost. A demo trade under a market session is won, and
-- without one it is decided by the prices.
abbrev pub auto_win : AccountType → Option ℕ → TradeDirection → ℤ → ℤ → Bool
auto_win AccountType.real session direction entry exit = false
auto_win AccountType.demo (some s) direction entry exit = true
auto_win AccountType.demo none TradeDirection.call entry exit = ltb_ℤ entry exit
auto_win AccountType.demo none TradeDirection.put entry exit = ltb_ℤ exit entry

unfoldable pub is_win : Option ForcedResult → TransactionLog → Option ℤ → Bool
is_win (some ForcedResult.win) t exit = true
is_win (some ForcedResult.lose) t exit = false
is_win none t exit =
    auto_win t.account_type t.market_session_id t.direction (pos t.entry_price) (compared exit)

abbrev pub pending_result : Option PendingForceSettleConfig → Option ForcedResult
pending_result none = none
pending_result (some c) = c.result

abbrev pub pending_exit_price : Option PendingForceSettleConfig → Option (Option ℤ)
pending_exit_price none = none
pending_exit_price (some c) = c.exit_price

abbrev pub caller_price : Option ℤ → Option ℤ → Result Error (Option ℤ)
caller_price (some p) market = ok (some p)
caller_price none (some m) = ok (some m)
caller_price none none = err Error.price_unavailable

-- The instruction's price, which may be `null`, else the caller's, else the market's, which may be out
-- of reach. `none` is a price of `null`.
unfoldable pub resolve_exit_price :
    Option PendingForceSettleConfig → Option ℤ → Option ℤ → Result Error (Option ℤ)
resolve_exit_price pending exit market = elim (pending_exit_price pending) [
  | some p ↦ ok p
  | none ↦ caller_price exit market
]

abbrev result_suffix : Option ForcedResult → Text
result_suffix none = []
result_suffix (some ForcedResult.win) = text ": WIN"
result_suffix (some ForcedResult.lose) = text ": LOSE"

-- `reason || default`: an empty text counts as missing.
abbrev reason_or : Option Text → Text → Text
reason_or none d = d
reason_or (some []) d = d
reason_or (some (c ∷ s)) d = c ∷ s

execution_metadata : ℕ → Option PendingForceSettleConfig → TransactionLog → TransactionLog
execution_metadata now none t = t
execution_metadata now (some c) t = record t {
  manual_adjusted = true;
  manual_adjusted_by_id = or_else c.operator_id t.manual_adjusted_by_id;
  manual_adjusted_by_name = or_else c.operator_name t.manual_adjusted_by_name;
  manual_adjustment_reason = some (reason_or c.reason (text "管理员预设结算" ++ result_suffix c.result));
  manual_adjusted_at = some (get_or t.manual_adjusted_at now);
}

-- An option that is left out leaves the stored column alone, also where `executed` changed it.
manual_metadata : ℕ → SettleTransactionOptions → TransactionLog → TransactionLog → TransactionLog
manual_metadata now o stored executed =
    if o.manual
    then record executed {
      manual_adjusted = true;
      manual_adjusted_by_id = or_else o.operator_id stored.manual_adjusted_by_id;
      manual_adjusted_by_name = or_else o.operator_name stored.manual_adjusted_by_name;
      manual_adjustment_reason = or_else o.reason stored.manual_adjustment_reason;
      manual_adjusted_at = some now;
    }
    else executed

-- The row that the first update of a settlement writes.
unfoldable pub settled_row :
    ℕ
    → Option ℤ
    → ℤ
    → Option PendingForceSettleConfig
    → SettleTransactionOptions
    → TransactionLog
    → TransactionLog
unfolding execution_metadata manual_metadata
settled_row now exit actual pending o t =
    let row = manual_metadata now o t (execution_metadata now pending t) in
    record row {
      exit_price = exit;
      current_price = exit;
      actual_return = actual;
      status = TransactionStatus.settled;
      settled_at = some now;
    }

-- The second update: the balance at the entry plus the return, where the entry recorded a balance.
abbrev pub with_settled_balance : Option ℤ → ℤ → TransactionLog → TransactionLog
with_settled_balance none actual t = t
with_settled_balance (some entry) actual t = record t {
  settled_account_balance = some (entry +ℤ actual);
}

abbrev pub settlement_return :
    Option ℤ → Option PendingForceSettleConfig → SettleTransactionOptions → TransactionLog → ℤ
settlement_return exit pending o t =
    actual_return_of (is_win (or_else o.forced_result (pending_result pending)) t exit)
      t.invest_amount t.return_rate

-- All writes of a settlement, at the price that it settles at.
unfoldable pub apply_settlement :
    ℕ
    → Option ℤ
    → Option PendingForceSettleConfig
    → SettleTransactionOptions
    → TransactionLog
    → Database
    → TransactionLog × Database
apply_settlement now exit pending o t db =
    let actual = settlement_return exit pending o t in
    let row = settled_row now exit actual pending o t in
    let logs = update order_key t.order_number (λ _. row) db.transaction_logs in
    let users =
      update_user_account_after_settle t.user_id t.invest_amount actual t.account_type
        (is_settled t.status) t.actual_return logs db.users in
    let final = with_settled_balance t.entry_account_balance actual row in
    (
      final,
      record db {
        users = users;
        transaction_logs = update order_key t.order_number (λ _. final) logs;
      },
    )

module _ (json : Json) where
  -- `market` is what the market data service gives, `none` where it throws.
  unfoldable pub settle_transaction_by_system :
      ℕ
      → Option ℤ
      → ℕ
      → Option ℤ
      → SettleTransactionOptions
      → Database
      → Result Error (TransactionLog × Database)
  settle_transaction_by_system now market order exit o db = do
    t ← or_throw (find_unique order_key order db.transaction_logs) Error.order_not_found
    throw_if (is_canceled t.status) Error.order_canceled
    let pending = parse_pending_force_settle_reason json t.manual_adjustment_reason
    price ← resolve_exit_price pending exit market
    ok (apply_settlement now price pending o t db)

  -- By the owner: a trade that is settled already is returned as it stands.
  unfoldable pub settle_transaction :
      ℕ → Option ℤ → ℕ → ℤ → ℕ → Database → Result Error (TransactionLog × Database)
  settle_transaction now market order exit user db = do
    t ← or_throw (find_unique order_key order db.transaction_logs) Error.order_not_found
    throw_if (not (t.user_id == user)) Error.not_owner
    elim t.status [
      | TransactionStatus.settled ↦ ok (t, db)
      | TransactionStatus.canceled ↦ err Error.order_canceled
      | TransactionStatus.pending ↦
          settle_transaction_by_system now market order (some exit) no_options db
    ]
