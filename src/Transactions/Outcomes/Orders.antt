-- ===== src/Transactions/Outcomes/Orders.antt =====
-- What a call that opened or canceled a trade has met.
use crypto_sim_backend.Common.{
  ℕ, ◌≡◌, pos, ltb_ℤ, true, false, ◌∷◌, Option, none, some, get_or, Text, ok, arith, Option-cases,
  inl, inr,
}
use crypto_sim_backend.Common.Table.{find_unique, update}
use crypto_sim_backend.Database.{
  Database, User, user_id, AccountType, balance_of, TransactionLog, order_key, is_pending,
}
use crypto_sim_backend.Transactions.Inputs.{CreateTransactionDto, AdminCreateTransactionDto}
use crypto_sim_backend.Transactions.Hours.{is_closed}
use crypto_sim_backend.Transactions.Create.{
  Surroundings, check_account, new_row, debit, create_transaction,
}
use crypto_sim_backend.Transactions.AdminCreate.{admin_row, admin_users, admin_create_transaction}
use crypto_sim_backend.Transactions.Cancel.{canceled_row, credit, cancel_transaction}

pub record Creates (s : Surroundings) (uid : ℕ) (dto : CreateTransactionDto) (db : Database)
    (r : TransactionLog × Database) : Type 0 where
  pub user : User
  pub found : find_unique user_id uid db.users ≡ some user
  pub fresh : find_unique order_key s.order_number db.transaction_logs ≡ none
  pub market_open : is_closed s.pacific ≡ false
  pub covered :
      ltb_ℤ (balance_of (get_or dto.account_type AccountType.demo) user) (pos dto.invest_amount)
      ≡ false
  pub checked : check_account (get_or dto.account_type AccountType.demo) user dto.duration ≡ ok tt
  pub applied : r ≡ (
    new_row s uid dto user db,
    record db {
      users =
          update user_id uid
            (debit (get_or dto.account_type AccountType.demo) (pos dto.invest_amount))
            db.users;
      transaction_logs = new_row s uid dto user db ∷ db.transaction_logs;
    },
  )

pub create_transaction-Creates :
    (s : Surroundings) (uid : ℕ) (dto : CreateTransactionDto) (db : Database)
    (r : TransactionLog × Database)
    → create_transaction s uid dto db ≡ ok r
    → Creates s uid dto db r
unfolding create_transaction
create_transaction-Creates s uid dto db r h =
    elim (Option-cases (find_unique user_id uid db.users)) [
      | inl missing ↦ absurd (ground arith)
      | inr (u, found) ↦
          elim (Option-cases (find_unique order_key s.order_number db.transaction_logs)) [
            | inl fresh ↦ record {
              user = u;
              found = found;
              fresh = fresh;
              market_open = ground arith;
              covered = ground arith;
              checked = ground arith;
              applied = ground arith;
            }
            | inr (old, taken) ↦ absurd (ground arith)
          ]
    ]

pub record AdminCreates (s : Surroundings) (dto : AdminCreateTransactionDto) (operator : ℕ)
    (operator_name : Option Text) (db : Database) (r : TransactionLog × Database) : Type 0 where
  pub user : User
  pub found : find_unique user_id dto.user_id db.users ≡ some user
  pub fresh : find_unique order_key s.order_number db.transaction_logs ≡ none
  pub applied :
      let row = admin_row s dto operator operator_name user db in
      r ≡ (
        row,
        record db {
          users = admin_users dto dto.user_id (row ∷ db.transaction_logs) db.users;
          transaction_logs = row ∷ db.transaction_logs;
        },
      )

pub admin_create_transaction-AdminCreates :
    (s : Surroundings) (dto : AdminCreateTransactionDto) (operator : ℕ) (name : Option Text)
    (db : Database) (r : TransactionLog × Database)
    → admin_create_transaction s dto operator name db ≡ ok r
    → AdminCreates s dto operator name db r
unfolding admin_create_transaction
admin_create_transaction-AdminCreates s dto operator name db r h =
    elim (Option-cases (find_unique user_id dto.user_id db.users)) [
      | inl missing ↦ absurd (ground arith)
      | inr (u, found) ↦
          elim (Option-cases (find_unique order_key s.order_number db.transaction_logs)) [
            | inl fresh ↦ record { user = u; found = found; fresh = fresh; applied = ground arith }
            | inr (old, taken) ↦ absurd (ground arith)
          ]
    ]

pub record Cancels (order user : ℕ) (db : Database) (r : TransactionLog × Database) : Type 0 where
  pub trade : TransactionLog
  pub found : find_unique order_key order db.transaction_logs ≡ some trade
  pub owned : trade.user_id ≡ user
  pub open_trade : is_pending trade.status ≡ true
  pub applied : r ≡ (
    canceled_row trade,
    record db {
      transaction_logs = update order_key order canceled_row db.transaction_logs;
      users =
          update user_id trade.user_id
            (credit trade.account_type (pos trade.invest_amount))
            db.users;
    },
  )

pub cancel_transaction-Cancels :
    (order user : ℕ) (db : Database) (r : TransactionLog × Database)
    → cancel_transaction order user db ≡ ok r
    → Cancels order user db r
unfolding cancel_transaction
cancel_transaction-Cancels order user db r h =
    elim (Option-cases (find_unique order_key order db.transaction_logs)) [
      | inl missing ↦ absurd (ground arith)
      | inr (t, found) ↦ record {
        trade = t;
        found = found;
        owned = ground arith;
        open_trade = ground arith;
        applied = ground arith;
      }
    ]
