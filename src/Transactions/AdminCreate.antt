-- ===== src/Transactions/AdminCreate.antt =====
-- `adminCreateTransaction`.
use crypto_sim_backend.Common.{
  ℕ, ◌+◌, ◌*◌, ℤ, pos, ◌+ℤ◌, ltb_ℤ, Bool, true, false, ◌&&◌, ◌||◌, List, [], ◌∷◌, Option, none,
  some, get_or, Text, text, Result, ok, ◌>>=◌, ◌>>◌, throw_if, or_throw, if◌then◌else◌,
}
use crypto_sim_backend.Common.Table.{find_unique, update}
use crypto_sim_backend.Database.{
  Database, User, user_id, AccountType, balance_of, TransactionLog, TransactionStatus, is_pending,
  is_settled,
}
use crypto_sim_backend.Transactions.Inputs.{Error, AdminCreateTransactionDto}
use crypto_sim_backend.Transactions.Balances.{
  actual_return_of, spread_of, update_user_account_after_settle,
}
use crypto_sim_backend.Transactions.Create.{
  latest_active, session_id_of, debit, insert_trade, Surroundings,
}

abbrev pub status_of : AdminCreateTransactionDto → TransactionStatus
status_of dto = get_or dto.status TransactionStatus.pending

-- `dto.exitPrice && dto.autoSettle !== false`
abbrev pub should_auto_settle : AdminCreateTransactionDto → Bool
should_auto_settle dto = elim dto.exit_price [ none ↦ false | some p ↦ get_or dto.auto_settle true ]

abbrev pub is_settled_at_once : AdminCreateTransactionDto → Bool
is_settled_at_once dto = is_settled (status_of dto) || should_auto_settle dto

abbrev pub exit_price_of : AdminCreateTransactionDto → Option ℤ
exit_price_of dto = elim dto.exit_price [ none ↦ none | some p ↦ some (pos p) ]

-- The return of a trade that is settled at once is always that of a loss.
abbrev pub return_of : AdminCreateTransactionDto → ℤ
return_of dto =
    if is_settled_at_once dto
    then actual_return_of false dto.invest_amount dto.return_rate
    else pos 0

abbrev reason_of : Option Text → Text
reason_of none = text "管理端创建自定义交易"
reason_of (some []) = text "管理端创建自定义交易"
reason_of (some (c ∷ s)) = c ∷ s

abbrev exit_price_missing : AdminCreateTransactionDto → Bool
exit_price_missing dto =
    is_settled_at_once dto && elim dto.exit_price [ none ↦ true | some p ↦ false ]

-- The row as it stands after the call: the balance after a settlement is written by an update of
-- its own, which nothing reads before the call returns.
unfoldable pub admin_row :
    Surroundings → AdminCreateTransactionDto → ℕ → Option Text → User → Database → TransactionLog
admin_row s dto operator operator_name u db =
    let account = get_or dto.account_type AccountType.demo in
    let entry_time = get_or dto.entry_time s.now in
    record {
      order_number = s.order_number;
      user_id = dto.user_id;
      user_name = u.display_name;
      account_type = account;
      asset_type = dto.asset_type;
      direction = dto.direction;
      entry_time = entry_time;
      expiry_time = entry_time + dto.duration * 1000;
      duration = dto.duration;
      entry_price = dto.entry_price;
      current_price = some (get_or (exit_price_of dto) (pos dto.entry_price));
      exit_price = exit_price_of dto;
      spread = spread_of dto.entry_price;
      invest_amount = dto.invest_amount;
      entry_account_balance = some (balance_of account u);
      return_rate = dto.return_rate;
      actual_return = return_of dto;
      settled_account_balance =
          if is_settled_at_once dto then some (balance_of account u +ℤ return_of dto) else none;
      status = if should_auto_settle dto then TransactionStatus.settled else status_of dto;
      settled_at = if is_settled_at_once dto then some s.now else none;
      manual_adjusted = true;
      manual_adjusted_by_id = some operator;
      manual_adjusted_by_name = operator_name;
      manual_adjustment_reason = some (reason_of dto.reason);
      manual_adjusted_at = some s.now;
      is_managed = s.managed_mode;
      trading_cycle_id = none;
      market_session_id = session_id_of (latest_active db.market_sessions);
      created_at = s.now;
    }

-- The writes of the user's row: the stake of an open trade, then the settlement.
abbrev pub admin_users : AdminCreateTransactionDto → ℕ → List TransactionLog → List User → List User
admin_users dto uid logs users =
    let account = get_or dto.account_type AccountType.demo in
    let staked =
      if is_pending (status_of dto)
      then update user_id uid (debit account (pos dto.invest_amount)) users
      else users in
    if is_settled_at_once dto
    then update_user_account_after_settle uid dto.invest_amount (return_of dto) account false
        (pos 0) logs staked
    else staked

unfoldable pub admin_create_transaction :
    Surroundings
    → AdminCreateTransactionDto
    → ℕ
    → Option Text
    → Database
    → Result Error (TransactionLog × Database)
unfolding insert_trade admin_row
admin_create_transaction s dto operator operator_name db = do
  u ← or_throw (find_unique user_id dto.user_id db.users) Error.user_not_found
  let account = get_or dto.account_type AccountType.demo
  throw_if (is_pending (status_of dto) && ltb_ℤ (balance_of account u) (pos dto.invest_amount))
      Error.insufficient_balance
  throw_if (exit_price_missing dto) Error.exit_price_required
  (t, db') ← insert_trade (admin_row s dto operator operator_name u db) db
  ok (t, record db' { users = admin_users dto dto.user_id db'.transaction_logs db'.users })
