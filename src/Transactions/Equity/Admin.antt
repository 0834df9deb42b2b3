-- ===== src/Transactions/Equity/Admin.antt =====
-- A trade that an administrator creates, and the equity.
use crypto_sim_backend.Common.{
  ℕ, ◌≡◌, ap, ◌∙◌, ℤ, pos, ◌+ℤ◌, int_laws, Bool, true, false, not, ◌&&◌, ◌||◌, ◌∷◌, Option, get_or,
  count, Text, ok, ◌==◌, if◌then◌else◌, arith,
}
use crypto_sim_backend.Database.{
  Database, User, AccountType, same_account, balance_of, TransactionLog, TransactionStatus,
  is_pending, is_settled,
}
use crypto_sim_backend.Transactions.Inputs.{AdminCreateTransactionDto}
use crypto_sim_backend.Transactions.Balances.{actual_return_of, is_real_win}
use crypto_sim_backend.Transactions.Create.{Surroundings}
use crypto_sim_backend.Transactions.AdminCreate.{
  admin_row, status_of, should_auto_settle, is_settled_at_once, admin_create_transaction,
}
use crypto_sim_backend.Transactions.Outcomes.Orders.{
  AdminCreates, admin_create_transaction-AdminCreates,
}
use crypto_sim_backend.Transactions.Outcomes.Admin.{
  staked_user, closed_user, admin_user, admin_user_id, admin_users_lem,
}
use crypto_sim_backend.Transactions.Equity.{open_amount, stake, equity}
use crypto_sim_backend.Transactions.Equity.Opening.{equity-open}

-- What the row brings to the owner's account where the stake of a trade that is settled at once was
-- never taken: its return is booked as the loss of a stake, and the balance does not lose one.
abbrev pub drift_of : AdminCreateTransactionDto → AccountType → ℤ
drift_of dto account =
    if is_settled_at_once dto
      && not (is_pending (status_of dto))
      && same_account (get_or dto.account_type AccountType.demo) account
    then pos dto.invest_amount
    else pos 0

admin_moves :
    (a account : AccountType) (status : TransactionStatus) (auto : Bool) (wins invest rate : ℕ)
    (u : User)
    → let at_once = is_settled status || auto in
      let actual = if at_once then actual_return_of false invest rate else pos 0 in
      let n = pos invest in
      balance_of account
          (closed_user at_once a wins invest actual (staked_user (is_pending status) a n u))
        +ℤ (if same_account a account
            then open_amount (if auto then TransactionStatus.settled else status) invest actual
            else pos 0)
      ≡ balance_of account u
        +ℤ (if at_once && not (is_pending status) && same_account a account then n else pos 0)
unfolding actual_return_of
admin_moves a account TransactionStatus.pending true wins invest rate u = grind int_laws
admin_moves a account TransactionStatus.pending false wins invest rate u = grind int_laws
admin_moves a account TransactionStatus.settled true wins invest rate u = grind int_laws
admin_moves a account TransactionStatus.settled false wins invest rate u = grind int_laws
admin_moves a account TransactionStatus.canceled true wins invest rate u = grind int_laws
admin_moves a account TransactionStatus.canceled false wins invest rate u = grind int_laws

module _ (uid : ℕ) (account : AccountType) where
  stake_of_row :
      (t : TransactionLog)
      → t.user_id ≡ uid
      → stake uid account t ≡ (
          if same_account t.account_type account
          then open_amount t.status t.invest_amount t.actual_return
          else pos 0)
  stake_of_row t e = ground arith

  -- What an administrator's trade does to the equity.
  pub equity-AdminCreates :
      (s : Surroundings) (dto : AdminCreateTransactionDto) (operator : ℕ) (name : Option Text)
      (db : Database) (r : TransactionLog × Database)
      → AdminCreates s dto operator name db r
      → equity uid account r.1
        ≡ equity uid account db +ℤ (if dto.user_id == uid then drift_of dto account else pos 0)
  unfolding admin_row
  equity-AdminCreates s dto operator name db r c =
      let row = admin_row s dto operator name c.user db in
      let a = get_or dto.account_type AccountType.demo in
      let n = pos dto.invest_amount in
      let wins = count (is_real_win dto.user_id) (row ∷ db.transaction_logs) in
      let g = admin_user dto wins in
      ap (λ x. equity uid account x.1) c.applied
      ∙ ap
          (λ users.
            equity uid account
              (record db { users = users; transaction_logs = row ∷ db.transaction_logs }))
          (admin_users_lem dto (row ∷ db.transaction_logs) db.users)
      ∙ equity-open uid account db row c.user g (drift_of dto account) c.found
          (admin_user_id dto wins)
          (λ e.
            ap (λ d. balance_of account (g c.user) +ℤ d) (stake_of_row row e)
            ∙ admin_moves a account (status_of dto) (should_auto_settle dto) wins dto.invest_amount
                dto.return_rate c.user)

  -- An administrator's trade that goes through conserves every account's equity where its status is
  -- PENDING, since then it takes the stake; one that is settled at once with another status raises
  -- the equity of its own account by the stake.
  pub admin_create-equity :
      (s : Surroundings) (dto : AdminCreateTransactionDto) (operator : ℕ) (name : Option Text)
      (db : Database) (r : TransactionLog × Database)
      → admin_create_transaction s dto operator name db ≡ ok r
      → equity uid account r.1
        ≡ equity uid account db +ℤ (if dto.user_id == uid then drift_of dto account else pos 0)
  admin_create-equity s dto operator name db r h =
      equity-AdminCreates s dto operator name db r
        (admin_create_transaction-AdminCreates s dto operator name db r h)
