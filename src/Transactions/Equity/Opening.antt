-- ===== src/Transactions/Equity/Opening.antt =====
-- Opening and canceling a trade, and the equity.
use mathlib.Core.Path.{subst}
use crypto_sim_backend.Common.{
  ℕ, ◌≡◌, ◌≢◌, refl, sym, ap, ◌∙◌, ℤ, pos, ◌+ℤ◌, int_laws, sum_grows, +ℤ-zero, Bool, true, false,
  ◌∷◌, some, get_or, sum, ◌==◌, if◌then◌else◌, Bool-cases, inl, inr, arith,
}
use crypto_sim_backend.Common.Table.{find_unique, update, update_found, key_of_found}
use crypto_sim_backend.Database.{
  Database, User, user_id, AccountType, same_account, balance_of, TransactionLog, order_key,
  is_pending,
}
use crypto_sim_backend.Transactions.Inputs.{CreateTransactionDto}
use crypto_sim_backend.Transactions.Create.{Surroundings, new_row, debit}
use crypto_sim_backend.Transactions.Cancel.{canceled_row, credit}
use crypto_sim_backend.Transactions.Owners.{HasOwners, owner_of, found_at_key}
use crypto_sim_backend.Transactions.Outcomes.Orders.{Creates, Cancels}
use crypto_sim_backend.Transactions.Outcomes.Admin.{debit_id}
use crypto_sim_backend.Transactions.Equity.{stake, held, held_by, held-update, equity, equity-write}

pub credit_id : (a : AccountType) (n : ℤ) (u : User) → (credit a n u).id ≡ u.id
credit_id AccountType.demo n u = refl
credit_id AccountType.real n u = refl

-- What a payment of one account takes from another: nothing, unless they are the same.
pub debit_moves :
    (a account : AccountType) (n : ℤ) (u : User)
    → balance_of account (debit a n u) +ℤ (if same_account a account then n else pos 0)
      ≡ balance_of account u
debit_moves AccountType.demo AccountType.demo n u = omega int_laws
debit_moves AccountType.demo AccountType.real n u = omega int_laws
debit_moves AccountType.real AccountType.demo n u = omega int_laws
debit_moves AccountType.real AccountType.real n u = omega int_laws

pub credit_moves :
    (a account : AccountType) (n : ℤ) (u : User)
    → balance_of account (credit a n u)
      ≡ balance_of account u +ℤ (if same_account a account then n else pos 0)
credit_moves AccountType.demo AccountType.demo n u = omega int_laws
credit_moves AccountType.demo AccountType.real n u = omega int_laws
credit_moves AccountType.real AccountType.demo n u = omega int_laws
credit_moves AccountType.real AccountType.real n u = omega int_laws

pub no_drift : (e : ℤ) (b : Bool) → e +ℤ (if b then pos 0 else pos 0) ≡ e
no_drift e true = +ℤ-zero e
no_drift e false = +ℤ-zero e

module _ (uid : ℕ) (account : AccountType) where
  pub stake_of_pending :
      (t : TransactionLog)
      → t.user_id ≡ uid
      → is_pending t.status ≡ true
      → stake uid account t
        ≡ (if same_account t.account_type account then pos t.invest_amount else pos 0)
  stake_of_pending t e h = ground arith

  stake_of_canceled : (t : TransactionLog) → stake uid account (canceled_row t) ≡ pos 0
  stake_of_canceled t = ground arith

  stake_of_other : (t : TransactionLog) → t.user_id ≢ uid → stake uid account t ≡ pos 0
  stake_of_other t h = ground arith

  -- A new trade and a write of its owner move the equity by what they bring to it together.
  pub equity-open :
      (db : Database) (t : TransactionLog) (u : User) (g : User → User) (drift : ℤ)
      → find_unique user_id t.user_id db.users ≡ some u
      → ((v : User) → (g v).id ≡ v.id)
      → (t.user_id ≡ uid
          → balance_of account (g u) +ℤ stake uid account t ≡ balance_of account u +ℤ drift)
      → equity uid account (record db {
        users = update user_id t.user_id g db.users;
        transaction_logs = t ∷ db.transaction_logs;
      })
        ≡ equity uid account db +ℤ (if t.user_id == uid then drift else pos 0)
  unfolding equity
  equity-open db t u g drift hu same own =
      let holds = held-update uid account t.user_id g db.users u hu same in
      let s = sum (stake uid account) db.transaction_logs in
      let h = held uid account db.users in
      elim (Bool-cases (t.user_id == uid)) [
        | inl hit ↦
            let e : t.user_id ≡ uid = ground arith in
            let found : find_unique user_id uid db.users ≡ some u =
              subst (λ k. find_unique user_id k db.users ≡ some u) e hu in
            let before : h ≡ balance_of account u = ap (held_by uid account) found in
            let after : held uid account (update user_id t.user_id g db.users)
                ≡ balance_of account (g u) =
              rw hit at holds in
            let chosen : (if t.user_id == uid then drift else pos 0) ≡ drift = rw hit in
            sum_grows h (held uid account (update user_id t.user_id g db.users))
              (balance_of account u) (balance_of account (g u)) s (stake uid account t) drift before
              after (own e)
            ∙ ap (λ d. h +ℤ s +ℤ d) (sym chosen)
        | inr miss ↦
            let kept : held uid account (update user_id t.user_id g db.users) ≡ h =
              rw miss at holds in
            let none_of : stake uid account t ≡ pos 0 = rw miss in
            let chosen : (if t.user_id == uid then drift else pos 0) ≡ pos 0 = rw miss in
            sum_grows h (held uid account (update user_id t.user_id g db.users)) h h s
              (stake uid account t) (pos 0) refl kept (ap (λ d. h +ℤ d) none_of)
            ∙ ap (λ d. h +ℤ s +ℤ d) (sym chosen)
      ]

  pub equity-Creates :
      (s : Surroundings) (owner : ℕ) (dto : CreateTransactionDto) (db : Database)
      (r : TransactionLog × Database)
      → Creates s owner dto db r
      → equity uid account r.1 ≡ equity uid account db
  unfolding new_row
  equity-Creates s owner dto db r c =
      let a = get_or dto.account_type AccountType.demo in
      let n = pos dto.invest_amount in
      rw c.applied (
        equity-open db (new_row s owner dto c.user db) c.user (debit a n) (pos 0) c.found
          (debit_id a n)
          (λ e.
            ap (λ d. balance_of account (debit a n c.user) +ℤ d)
              (stake_of_pending (new_row s owner dto c.user db) e refl)
            ∙ debit_moves a account n c.user
            ∙ sym (+ℤ-zero (balance_of account c.user)))
        ∙ no_drift (equity uid account db) (owner == uid))

  pub equity-Cancels :
      (order user : ℕ) (db : Database) (r : TransactionLog × Database)
      → HasOwners db
      → Cancels order user db r
      → equity uid account r.1 ≡ equity uid account db
  equity-Cancels order user db r owners c =
      let t = c.trade in
      let (u, hu) = owner_of order db t owners c.found in
      let n = pos t.invest_amount in
      let at_key = found_at_key order db t c.found in
      let key = key_of_found order_key order db.transaction_logs t c.found in
      rw
        (
          c.applied,
          ← key,
          update_found order_key t.order_number canceled_row db.transaction_logs t at_key,
        )
        (equity-write uid account db t (canceled_row t) u (credit t.account_type n) at_key hu
          (credit_id t.account_type n)
          (λ e.
            ap (λ d. balance_of account (credit t.account_type n u) +ℤ d) (stake_of_canceled t)
            ∙ +ℤ-zero (balance_of account (credit t.account_type n u))
            ∙ credit_moves t.account_type account n u
            ∙ ap (λ d. balance_of account u +ℤ d) (sym (stake_of_pending t e c.open_trade)))
          (λ ne. stake_of_canceled t ∙ sym (stake_of_other t ne)))
