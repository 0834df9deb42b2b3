-- ===== src/Transactions/Balances.antt =====
-- What a settlement is worth, and `updateUserAccountAfterSettle`. A Number is an integer in units of
-- 10^-8; the one product that the service takes, stake times rate, is rounded to that unit half up,
-- as the column stores it.
use crypto_sim_backend.Common.{
  ℕ, ◌+◌, ◌*◌, ◌/◌, ℤ, pos, neg_ℕ, ◌+ℤ◌, ◌-ℤ◌, ltb_ℤ, Bool, ◌&&◌, List, count, ltb, ◌==◌,
  if◌then◌else◌,
}
use crypto_sim_backend.Common.Table.{update}
use crypto_sim_backend.Database.{User, user_id, AccountType, is_real, TransactionLog, is_settled}

unfoldable pub win_return : ℕ → ℕ → ℕ
win_return invest rate = (invest * rate + 5000) / 10000

unfoldable pub actual_return_of : Bool → ℕ → ℕ → ℤ
actual_return_of is_win invest rate = if is_win then pos (win_return invest rate) else neg_ℕ invest

-- `entryPrice * 0.0001`
unfoldable pub spread_of : ℕ → ℕ
spread_of entry_price = (entry_price + 5000) / 10000

-- `(wins / trades) * 100`, rounded half up to the column's two places.
unfoldable pub win_rate_of : ℕ → ℕ → ℕ
win_rate_of wins trades = if ltb 0 trades then (2 * (wins * 10000) + trades) / (2 * trades) else 0

-- The rows that the win count of a user selects.
abbrev pub is_real_win : ℕ → TransactionLog → Bool
is_real_win uid t =
    (t.user_id == uid)
    && is_settled t.status
    && is_real t.account_type
    && ltb_ℤ (pos 0) t.actual_return

abbrev pub balance_delta : Bool → ℕ → ℤ → ℤ → ℤ
balance_delta was_settled invest actual previous =
    if was_settled then actual -ℤ previous else pos invest +ℤ actual

-- The user's row after a settlement: `wins` is the count that the service reads for a real account.
abbrev pub settled_user : AccountType → ℕ → ℕ → ℤ → Bool → ℤ → User → User
settled_user AccountType.demo wins invest actual was_settled previous u = record u {
  demo_balance = u.demo_balance +ℤ balance_delta was_settled invest actual previous;
}
settled_user AccountType.real wins invest actual was_settled previous u =
    let trades = if was_settled then u.total_trades else u.total_trades + 1 in
    record u {
      real_balance = u.real_balance +ℤ balance_delta was_settled invest actual previous;
      total_profit_loss = u.total_profit_loss +ℤ (actual -ℤ previous);
      total_trades = trades;
      win_rate = win_rate_of wins trades;
    }

-- A user that is not there is passed over.
abbrev pub update_user_account_after_settle :
    ℕ → ℕ → ℤ → AccountType → Bool → ℤ → List TransactionLog → List User → List User
update_user_account_after_settle uid invest actual account was_settled previous logs users =
    update user_id uid
      (settled_user account (count (is_real_win uid) logs) invest actual was_settled previous) users
