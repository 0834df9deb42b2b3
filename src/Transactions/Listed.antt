-- ===== src/Transactions/Listed.antt =====
-- What the queries of the trades answer (backend/src/transaction-log/transaction-log.service.ts).
use crypto_sim_backend.Common.{
  zero, suc, ◌++◌, given, ℕ, ◌≡◌, sym, ap, ◌∙◌, Bool, ◌&&◌, ◌||◌, List, [], count, some, Text,
}
use crypto_sim_backend.Common.Table.{find_unique}
use crypto_sim_backend.Database.{Database, User, user_id, TransactionLog}
use crypto_sim_backend.Transactions.Balances.{is_real_win, win_rate_of}
use crypto_sim_backend.Transactions.Statistics.{IsExact}
use crypto_sim_backend.Transactions.Listing.{
  QueryTransactionsDto, AdminQueryTransactionsDto, get_admin_transactions, is_extra_listed,
  fits_filters, has_extra, get_user_statistics,
}
use crypto_sim_backend.Common.Pages.{passes}
use crypto_sim_backend.Users.Service.{same_flag}

abbrev pub at_page : ℕ → AdminQueryTransactionsDto → AdminQueryTransactionsDto
at_page n q = record q { filters = record q.filters { page = some n } }

module _ (contains : Text → Text → Bool) where
  -- The filters by user name and by management that the query inherits.
  abbrev pub is_name_listed : QueryTransactionsDto → TransactionLog → Bool
  is_name_listed q t =
      passes (given q.user_name) (λ s. contains s t.user_name)
      && passes q.is_managed (same_flag t.is_managed)

  -- A trade passes the administrator's filters and those that the query inherits; of these the filters
  -- by name and by management count only where the query has none of the administrator's.
  abbrev pub is_admin_listed : AdminQueryTransactionsDto → TransactionLog → Bool
  is_admin_listed q t =
      fits_filters q.filters t
      && is_extra_listed contains q t
      && (has_extra q || is_name_listed q.filters t)

  -- The rows of the first pages of an administrator's query, one page after the other.
  pub admin_walk : ℕ → AdminQueryTransactionsDto → Database → List TransactionLog
  admin_walk zero q db = []
  admin_walk (suc n) q db =
      admin_walk n q db ++ (get_admin_transactions contains (at_page (suc n) q) db).rows

-- Where the users' rows agree with the log, a user's statistics tell the same number of trades and
-- the same rate of wins as the row keeps.
pub get_user_statistics-IsExact :
    (uid : ℕ) (db : Database) (u : User)
    → IsExact db
    → find_unique user_id uid db.users ≡ some u
    → ((get_user_statistics uid db).settled_trades ≡ (get_user_statistics uid db).total_trades)
      × ((get_user_statistics uid db).win_rate ≡ u.win_rate)
unfolding get_user_statistics
get_user_statistics-IsExact uid db u exact found =
    let a = exact.agrees uid u found in
    rw (found) (
      sym a.trades,
      sym (a.wins ∙ ap (win_rate_of (count (is_real_win uid) db.transaction_logs)) a.trades),
    )
