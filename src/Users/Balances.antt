-- ===== src/Users/Balances.antt =====
-- Balances under the administration of users.
use crypto_sim_backend.Common.{
  ℕ, ℤ, pos, ◌+ℤ◌, ◌≤ℤ◌, ◌≡◌, All, ok, Option-cases, Result-cases, inl, inr, arith, int_laws,
}
use crypto_sim_backend.Common.Table.{find_unique, All-update, All-found}
use crypto_sim_backend.Database.{Database, User, user_id, AccountType, balance_of, set_balance}
use crypto_sim_backend.Users.Service.{AdjustmentType, adjusted, adjust_balance, write_user}

-- Neither account is below zero.
abbrev pub IsCovered : User → Type 0
IsCovered u = (pos 0 ≤ℤ u.demo_balance) × (pos 0 ≤ℤ u.real_balance)

pub adjusted-covered :
    (type : AdjustmentType) (amount : ℕ) (old new : ℤ)
    → adjusted type amount old ≡ ok new
    → pos 0 ≤ℤ old
    → pos 0 ≤ℤ new
adjusted-covered AdjustmentType.add amount old new h low =
    let e : new ≡ old +ℤ pos amount = cc in rw e (omega int_laws)
adjusted-covered AdjustmentType.subtract amount old new h low = ground arith
adjusted-covered AdjustmentType.set amount old new h low = ground arith

set_balance-IsCovered :
    (account : AccountType) (b : ℤ) (u : User)
    → pos 0 ≤ℤ b
    → IsCovered u
    → IsCovered (set_balance account b u)
set_balance-IsCovered AccountType.demo b u h c = (h, c.1)
set_balance-IsCovered AccountType.real b u h c = (c.0, h)

balance-covered : (account : AccountType) (u : User) → IsCovered u → pos 0 ≤ℤ balance_of account u
balance-covered AccountType.demo u c = c.0
balance-covered AccountType.real u c = c.1

-- No adjustment takes an account below zero: if neither account of any user is below zero, then so it
-- is after an adjustment that goes through.
pub adjust_balance-IsCovered :
    (id : ℕ) (account : AccountType) (type : AdjustmentType) (amount : ℕ) (db db' : Database)
    → adjust_balance id account type amount db ≡ ok db'
    → All IsCovered db.users
    → All IsCovered db'.users
unfolding adjust_balance
adjust_balance-IsCovered id account type amount db db' h all =
    elim (Option-cases (find_unique user_id id db.users)) [
      | inl missing ↦ absurd (ground arith)
      | inr (u, found) ↦ elim (Result-cases (adjusted type amount (balance_of account u))) [
        | inr (e, refused) ↦ absurd (ground arith)
        | inl (b, new) ↦
            let e : db' ≡ write_user id (set_balance account b) db = ground arith in
            rw e (
              All-update user_id IsCovered id (set_balance account b) db.users all (λ x at c.
                set_balance-IsCovered account b x
                  (adjusted-covered type amount (balance_of account u) b new (
                    balance-covered account u
                      (All-found user_id IsCovered id db.users u all found)))
                  c))
      ]
    ]
