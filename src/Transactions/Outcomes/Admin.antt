-- ===== src/Transactions/Outcomes/Admin.antt =====
-- The writes of a user's row by an administrator's trade as one.
use crypto_sim_backend.Common.{
  ℕ, ◌≡◌, refl, sym, ◌∙◌, ℤ, pos, Bool, true, false, List, get_or, count, if◌then◌else◌,
}
use crypto_sim_backend.Common.Table.{update, update-update, update_same}
use crypto_sim_backend.Database.{User, user_id, AccountType, TransactionLog, is_pending}
use crypto_sim_backend.Transactions.Inputs.{AdminCreateTransactionDto}
use crypto_sim_backend.Transactions.Balances.{settled_user, is_real_win}
use crypto_sim_backend.Transactions.Create.{debit}
use crypto_sim_backend.Transactions.AdminCreate.{
  admin_users, status_of, is_settled_at_once, return_of,
}
use crypto_sim_backend.Transactions.Outcomes.Settled.{settled_user_id}

pub debit_id : (a : AccountType) (n : ℤ) (u : User) → (debit a n u).id ≡ u.id
debit_id AccountType.demo n u = refl
debit_id AccountType.real n u = refl

-- The two writes of the user's row as one.
abbrev pub staked_user : Bool → AccountType → ℤ → User → User
staked_user pending a n u = if pending then debit a n u else u

abbrev pub closed_user : Bool → AccountType → ℕ → ℕ → ℤ → User → User
closed_user at_once a wins invest actual u =
    if at_once then settled_user a wins invest actual false (pos 0) u else u

staked_user_id : (p : Bool) (a : AccountType) (n : ℤ) (u : User) → (staked_user p a n u).id ≡ u.id
staked_user_id true a n u = debit_id a n u
staked_user_id false a n u = refl

closed_user_id :
    (b : Bool) (a : AccountType) (wins invest : ℕ) (actual : ℤ) (u : User)
    → (closed_user b a wins invest actual u).id ≡ u.id
closed_user_id true a wins invest actual u = settled_user_id a wins invest actual false (pos 0) u
closed_user_id false a wins invest actual u = refl

writes_as_one :
    (p b : Bool) (a : AccountType) (n : ℤ) (wins invest k : ℕ) (actual : ℤ) (users : List User)
    → (let staked = if p then update user_id k (debit a n) users else users in
        if b
        then update user_id k (settled_user a wins invest actual false (pos 0)) staked
        else staked)
      ≡ update user_id k (λ u. closed_user b a wins invest actual (staked_user p a n u)) users
writes_as_one true true a n wins invest k actual users =
    update-update user_id k (debit a n) (settled_user a wins invest actual false (pos 0)) users
      (debit_id a n)
writes_as_one true false a n wins invest k actual users = refl
writes_as_one false true a n wins invest k actual users = refl
writes_as_one false false a n wins invest k actual users = sym (update_same user_id k users)

module _ (dto : AdminCreateTransactionDto) where
  abbrev pub admin_user : ℕ → User → User
  admin_user wins u =
      let a = get_or dto.account_type AccountType.demo in
      closed_user (is_settled_at_once dto) a wins dto.invest_amount (return_of dto)
        (staked_user (is_pending (status_of dto)) a (pos dto.invest_amount) u)

  pub admin_user_id : (wins : ℕ) (u : User) → (admin_user wins u).id ≡ u.id
  admin_user_id wins u =
      let a = get_or dto.account_type AccountType.demo in
      let n = pos dto.invest_amount in
      let p = is_pending (status_of dto) in
      closed_user_id (is_settled_at_once dto) a wins dto.invest_amount (return_of dto)
        (staked_user p a n u)
      ∙ staked_user_id p a n u

  pub admin_users_lem :
      (logs : List TransactionLog) (users : List User)
      → admin_users dto dto.user_id logs users
        ≡ update user_id dto.user_id (admin_user (count (is_real_win dto.user_id) logs)) users
  admin_users_lem logs users =
      writes_as_one (is_pending (status_of dto)) (is_settled_at_once dto)
        (get_or dto.account_type AccountType.demo) (pos dto.invest_amount)
        (count (is_real_win dto.user_id) logs) dto.invest_amount dto.user_id (return_of dto) users
