-- ===== src/Transactions/Create.antt =====
-- `createTransaction`.
use crypto_sim_backend.Common.{
  ℕ, ◌+◌, ◌*◌, ℤ, pos, ◌-ℤ◌, ltb_ℤ, Bool, true, false, not, List, [], ◌∷◌, Option, none, some,
  get_or, Result, ok, err, ◌>>=◌, ◌>>◌, throw_if, or_throw, leb, if◌then◌else◌,
}
use crypto_sim_backend.Common.Table.{find_unique, update}
use crypto_sim_backend.Database.{
  Database, User, user_id, AccountType, VerificationStatus, balance_of, set_balance, TransactionLog,
  TransactionStatus, order_key, MarketSession, is_active,
}
use crypto_sim_backend.Transactions.Inputs.{Error, CreateTransactionDto}
use crypto_sim_backend.Transactions.Hours.{PacificTime, is_closed}
use crypto_sim_backend.Transactions.Durations.{normalize_trade_durations, includes_duration}
use crypto_sim_backend.Transactions.Balances.{spread_of}

-- The active session that starts last; the first in the table among equals.
abbrev later_session : MarketSession → Option MarketSession → MarketSession
later_session s none = s
later_session s (some r) = if leb r.start_time s.start_time then s else r

unfoldable pub latest_active : List MarketSession → Option MarketSession
latest_active [] = none
latest_active (s ∷ ss) =
    let rest = latest_active ss in if is_active s.status then some (later_session s rest) else rest

abbrev pub session_id_of : Option MarketSession → Option ℕ
session_id_of none = none
session_id_of (some s) = some s.id

abbrev pub is_verified : VerificationStatus → Bool
is_verified VerificationStatus.verified = true
is_verified VerificationStatus.pending = false
is_verified VerificationStatus.in_review = false
is_verified VerificationStatus.rejected = false

-- What a real trade asks for beyond its stake.
unfoldable pub check_account : AccountType → User → ℕ → Result Error (Unit {0})
check_account AccountType.demo u duration = ok tt
check_account AccountType.real u duration = do
  throw_if (not (is_verified u.verification_status)) Error.not_verified
  throw_if (not (includes_duration duration (normalize_trade_durations u.trade_durations)))
      Error.duration_not_allowed

-- `decrement`, and the `increment` of a refund.
abbrev pub debit : AccountType → ℤ → User → User
debit account amount u = set_balance account (balance_of account u -ℤ amount) u

-- What the service reads beside its arguments: the clock, the Pacific time, the drawn order number
-- and the managed mode, which is false where the setting is missing.
pub record Surroundings : Type 0 where
  pub now : ℕ
  pub pacific : PacificTime
  pub order_number : ℕ
  pub managed_mode : Bool

unfoldable pub new_row : Surroundings → ℕ → CreateTransactionDto → User → Database → TransactionLog
new_row s uid dto u db =
    let account = get_or dto.account_type AccountType.demo in
    record {
      order_number = s.order_number;
      user_id = uid;
      user_name = u.display_name;
      account_type = account;
      asset_type = dto.asset_type;
      direction = dto.direction;
      entry_time = s.now;
      expiry_time = s.now + dto.duration * 1000;
      duration = dto.duration;
      entry_price = dto.entry_price;
      current_price = some (pos dto.entry_price);
      exit_price = none;
      spread = spread_of dto.entry_price;
      invest_amount = dto.invest_amount;
      entry_account_balance = some (balance_of account u);
      return_rate = dto.return_rate;
      actual_return = pos 0;
      settled_account_balance = none;
      status = TransactionStatus.pending;
      settled_at = none;
      manual_adjusted = false;
      manual_adjusted_by_id = none;
      manual_adjusted_by_name = none;
      manual_adjustment_reason = none;
      manual_adjusted_at = none;
      is_managed = s.managed_mode;
      trading_cycle_id = none;
      market_session_id = session_id_of (latest_active db.market_sessions);
      created_at = s.now;
    }

-- The two writes. The column's unique constraint refuses an order number that is taken.
unfoldable pub insert_trade : TransactionLog → Database → Result Error (TransactionLog × Database)
insert_trade t db = elim (find_unique order_key t.order_number db.transaction_logs) [
  | some old ↦ err Error.duplicate_order_number
  | none ↦ ok (t, record db { transaction_logs = t ∷ db.transaction_logs })
]

unfoldable pub create_transaction :
    Surroundings → ℕ → CreateTransactionDto → Database → Result Error (TransactionLog × Database)
unfolding check_account insert_trade new_row
create_transaction s uid dto db = do
  throw_if (is_closed s.pacific) Error.market_closed
  u ← or_throw (find_unique user_id uid db.users) Error.user_not_found
  let account = get_or dto.account_type AccountType.demo
  throw_if (ltb_ℤ (balance_of account u) (pos dto.invest_amount)) Error.insufficient_balance
  check_account account u dto.duration
  (t, db') ← insert_trade (new_row s uid dto u db) db
  ok (
    t,
    record db' { users = update user_id uid (debit account (pos dto.invest_amount)) db'.users },
  )
