-- ===== src/Transactions/Listing.antt =====
-- The queries of the trades: `getUserTransactions`, `getAdminTransactions` and `getUserStatistics`
-- (backend/src/transaction-log/transaction-log.service.ts). Trades that were created at the same time stand in the order of the table.
use crypto_sim_backend.Common.{
  given, ℕ, ◌-◌, ◌==◌, ℤ, pos, Bool, true, false, ◌&&◌, ◌||◌, List, filter, count, length, Option,
  none, some, get_or, Text, text_eq, if◌then◌else◌,
}
use crypto_sim_backend.Common.Table.{find_unique}
use crypto_sim_backend.Common.Pages.{sort_by, page_rows, passes}
use crypto_sim_backend.Database.{
  Database, User, user_id, AccountType, same_account, is_newer, TransactionLog, TradeDirection,
  TransactionStatus,
}
use crypto_sim_backend.Transactions.Balances.{is_real_win, win_rate_of}
use crypto_sim_backend.Transactions.Statistics.{is_real_settled}
use crypto_sim_backend.Users.Service.{same_flag}

abbrev pub same_direction : TradeDirection → TradeDirection → Bool
same_direction TradeDirection.call TradeDirection.call = true
same_direction TradeDirection.call TradeDirection.put = false
same_direction TradeDirection.put TradeDirection.call = false
same_direction TradeDirection.put TradeDirection.put = true

abbrev pub same_status : TransactionStatus → TransactionStatus → Bool
same_status TransactionStatus.pending TransactionStatus.pending = true
same_status TransactionStatus.settled TransactionStatus.settled = true
same_status TransactionStatus.canceled TransactionStatus.canceled = true
same_status _ _ = false

pub record QueryTransactionsDto : Type 0 where
  pub asset_type : Option Text
  pub direction : Option TradeDirection
  pub status : Option TransactionStatus
  pub account_type : Option AccountType
  pub user_name : Option Text
  pub is_managed : Option Bool
  pub page : Option ℕ
  pub limit : Option ℕ

-- `filters` is what it inherits.
pub record AdminQueryTransactionsDto : Type 0 where
  pub user_id : Option ℕ
  pub username : Option Text
  pub managed_mode : Option Bool
  pub market_session_id : Option ℕ
  pub filters : QueryTransactionsDto

pub record TransactionList : Type 0 where
  pub rows : List TransactionLog
  pub total : ℕ
  pub page : ℕ
  pub limit : ℕ

-- The page of `orderBy: { createdAt: 'desc' }`, and the number of all rows.
unfoldable pub list_rows : QueryTransactionsDto → List TransactionLog → TransactionList
list_rows q rows = record {
  rows = page_rows (get_or q.page 1) (get_or q.limit 20) (sort_by is_newer rows);
  total = length rows;
  page = get_or q.page 1;
  limit = get_or q.limit 20;
}

abbrev pub in_session : Option ℕ → ℕ → Bool
in_session none wanted = false
in_session (some session) wanted = session == wanted

-- The filters that both queries read.
abbrev pub fits_filters : QueryTransactionsDto → TransactionLog → Bool
fits_filters q t =
    passes (given q.asset_type) (text_eq t.asset_type)
    && passes q.direction (same_direction t.direction)
    && passes q.status (same_status t.status)
    && passes q.account_type (same_account t.account_type)

abbrev pub is_given {ℓ} : {A : Type ℓ} → Option A → Bool
is_given none = false
is_given (some a) = true

-- `Object.keys(where).length > 0`
abbrev pub has_extra : AdminQueryTransactionsDto → Bool
has_extra q =
    is_given q.user_id
    || is_given (given q.username)
    || is_given q.managed_mode
    || is_given q.market_session_id

module _ (contains : Text → Text → Bool) where
  -- `contains` is the database's search in a text, without regard to case.
  abbrev pub is_user_listed : Option ℕ → QueryTransactionsDto → TransactionLog → Bool
  is_user_listed uid q t =
      passes uid (λ u. t.user_id == u)
      && fits_filters q t
      && passes (given q.user_name) (λ s. contains s t.user_name)
      && passes q.is_managed (same_flag t.is_managed)

  unfoldable pub get_user_transactions :
      Option ℕ → QueryTransactionsDto → Database → TransactionList
  get_user_transactions uid q db = list_rows q (filter (is_user_listed uid q) db.transaction_logs)

  -- The administrator's own filters.
  abbrev pub is_extra_listed : AdminQueryTransactionsDto → TransactionLog → Bool
  is_extra_listed q t =
      passes q.user_id (λ u. t.user_id == u)
      && passes (given q.username) (λ s. contains s t.user_name)
      && passes q.managed_mode (same_flag t.is_managed)
      && passes q.market_session_id (in_session t.market_session_id)

  unfoldable pub get_admin_transactions : AdminQueryTransactionsDto → Database → TransactionList
  get_admin_transactions q db =
      if has_extra q
      then list_rows q.filters
          (filter (λ t. is_extra_listed q t && fits_filters q.filters t) db.transaction_logs)
      else get_user_transactions none q.filters db

-- What the query counts in the log, beside what the user's row keeps. The old column
-- `accountBalance` is left out.
pub record UserStatistics : Type 0 where
  pub demo_balance : ℤ
  pub real_balance : ℤ
  pub total_profit_loss : ℤ
  pub win_rate : ℕ
  pub total_trades : ℕ
  pub settled_trades : ℕ
  pub winning_trades : ℕ
  pub losing_trades : ℕ

abbrev pub amount_of : (User → ℤ) → Option User → ℤ
amount_of f none = pos 0
amount_of f (some u) = f u

abbrev pub trades_of : Option User → ℕ
trades_of none = 0
trades_of (some u) = u.total_trades

unfoldable pub get_user_statistics : ℕ → Database → UserStatistics
get_user_statistics uid db = record {
  demo_balance = amount_of (λ u. u.demo_balance) (find_unique user_id uid db.users);
  real_balance = amount_of (λ u. u.real_balance) (find_unique user_id uid db.users);
  total_profit_loss = amount_of (λ u. u.total_profit_loss) (find_unique user_id uid db.users);
  win_rate =
      win_rate_of (count (is_real_win uid) db.transaction_logs)
        (count (is_real_settled uid) db.transaction_logs);
  total_trades = trades_of (find_unique user_id uid db.users);
  settled_trades = count (is_real_settled uid) db.transaction_logs;
  winning_trades = count (is_real_win uid) db.transaction_logs;
  losing_trades =
      count (is_real_settled uid) db.transaction_logs - count (is_real_win uid) db.transaction_logs;
}
