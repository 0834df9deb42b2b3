-- ===== src/Transactions/Outcomes/Relabels.antt =====
-- The calls that only write columns of one trade that no balance depends on.
use crypto_sim_backend.Common.{ℕ, ◌≡◌, some, ok, arith, Option-cases, inl, inr}
use crypto_sim_backend.Common.Table.{find_unique, update}
use crypto_sim_backend.Database.{Database, TransactionLog, order_key}
use crypto_sim_backend.Transactions.Reasons.{Json}
use crypto_sim_backend.Transactions.Cancel.{
  update_current_price, ForceSettleParams, force_settled_row, force_settle_transaction,
}

pub record Relabels (order : ℕ) (db : Database) (r : TransactionLog × Database) : Type 0 where
  pub trade : TransactionLog
  pub found : find_unique order_key order db.transaction_logs ≡ some trade
  pub order_number : r.0.order_number ≡ trade.order_number
  pub user_id : r.0.user_id ≡ trade.user_id
  pub account_type : r.0.account_type ≡ trade.account_type
  pub status : r.0.status ≡ trade.status
  pub invest_amount : r.0.invest_amount ≡ trade.invest_amount
  pub actual_return : r.0.actual_return ≡ trade.actual_return
  pub applied :
      r.1 ≡ record db { transaction_logs = update order_key order (λ _. r.0) db.transaction_logs }

pub update_current_price-Relabels :
    (order price : ℕ) (db : Database) (r : TransactionLog × Database)
    → update_current_price order price db ≡ ok r
    → Relabels order db r
unfolding update_current_price
update_current_price-Relabels order price db r h =
    elim (Option-cases (find_unique order_key order db.transaction_logs)) [
      | inl missing ↦ absurd (ground arith)
      | inr (t, found) ↦ record {
        trade = t;
        found = found;
        order_number = ground arith;
        user_id = ground arith;
        account_type = ground arith;
        status = ground arith;
        invest_amount = ground arith;
        actual_return = ground arith;
        applied = ground arith;
      }
    ]

pub force_settle_transaction-Relabels :
    (json : Json) (now order : ℕ) (params : ForceSettleParams) (db : Database)
    (r : TransactionLog × Database)
    → force_settle_transaction json now order params db ≡ ok r
    → Relabels order db r
unfolding force_settle_transaction force_settled_row
force_settle_transaction-Relabels json now order params db r h =
    elim (Option-cases (find_unique order_key order db.transaction_logs)) [
      | inl missing ↦ absurd (ground arith)
      | inr (t, found) ↦ record {
        trade = t;
        found = found;
        order_number = ground arith;
        user_id = ground arith;
        account_type = ground arith;
        status = ground arith;
        invest_amount = ground arith;
        actual_return = ground arith;
        applied = ground arith;
      }
    ]
