-- ===== src/Transactions/Tests/Listing.antt =====
-- The queries of the trades on concrete rows.
use crypto_sim_backend.Common.{◌≡◌, refl, [], ◌∷◌, none, some, text, text_eq}
use crypto_sim_backend.Database.{Database, TransactionStatus}
use crypto_sim_backend.Samples.{start}
use crypto_sim_backend.Transactions.Listing.{
  QueryTransactionsDto, AdminQueryTransactionsDto, list_rows, get_admin_transactions,
}
use crypto_sim_backend.Transactions.Tests.Presets.{trade}

abbrev logged : Database
logged = record start {
  transaction_logs = record trade { order_number = 2; user_name = text "bob" } ∷ trade ∷ [];
}

abbrev pending : QueryTransactionsDto
pending = record {
  asset_type = none;
  direction = none;
  status = some TransactionStatus.pending;
  account_type = none;
  user_name = none;
  is_managed = none;
  page = none;
  limit = some 1;
}

abbrev of_alice : AdminQueryTransactionsDto
of_alice = record {
  user_id = none;
  username = some (text "alice");
  managed_mode = none;
  market_session_id = none;
  filters = pending;
}

one_listed : get_admin_transactions text_eq of_alice logged ≡ list_rows pending (trade ∷ [])
unfolding get_admin_transactions crypto_sim_backend.Transactions.Create.new_row
one_listed = refl
