-- ===== src/Users/Tests.antt =====
-- The theorems on identifiers and balances at concrete calls.
use crypto_sim_backend.Common.{ℕ, ◌+◌, ◌≡◌, refl, All, pos, ◌-ℤ◌, ok, arith}
use crypto_sim_backend.Samples.{start}
use crypto_sim_backend.Database.{AccountType, set_balance}
use crypto_sim_backend.Users.Ids.{generate_unique_user_id, generate-total}
use crypto_sim_backend.Users.Service.{AdjustmentType, adjust_balance, write_user}
use crypto_sim_backend.Users.Balances.{IsCovered, adjust_balance-IsCovered}

-- The first draw is taken.
generate-total_example : (id : ℕ) × (generate_unique_user_id (λ k. k + 1) start.users ≡ ok id)
generate-total_example = generate-total (λ k. k + 1) start.users 1 (omega arith) refl

adjust_balance-IsCovered_example :
    All IsCovered (write_user 1 (set_balance AccountType.real (pos 400)) start).users
unfolding adjust_balance ◌-ℤ◌
adjust_balance-IsCovered_example =
    adjust_balance-IsCovered 1 AccountType.real AdjustmentType.subtract 600 start
      (write_user 1 (set_balance AccountType.real (pos 400)) start) refl
      ((omega arith, omega arith), tt)
