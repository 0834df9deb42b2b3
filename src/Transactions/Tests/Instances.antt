-- ===== src/Transactions/Tests/Instances.antt =====
-- The theorems on trades at concrete rows and calls.
use mathlib.Core.Path.{subst}
use crypto_sim_backend.Common.{
  Text, ◌++◌, ◌+ℤ◌, if◌then◌else◌, none, Bool-cases, inl, inr, ◌==◌, ℕ, ◌*◌, ◌+◌, ◌≤◌, ◌≡◌, ◌≢◌,
  ◌<◌, ◌↔◌, refl, pos, true, [], ◌∷◌, some, All, arith,
}
use crypto_sim_backend.Common.Table.{find_unique}
use crypto_sim_backend.Database.{TransactionLog, Database, User, user_id, AccountType, NumberValue}
use crypto_sim_backend.Transactions.Inputs.{AdminCreateTransactionDto}
use crypto_sim_backend.Transactions.Hours.{is_closed, is_closed_iff, minute_of_week}
use crypto_sim_backend.Transactions.Durations.{
  normalize_trade_durations, normalize_trade_durations-All,
}
use crypto_sim_backend.Transactions.Reasons.{
  build_pending_force_settle_reason, parse_pending_force_settle_reason,
  parse_pending_force_settle_reason_iff, pending_force_settle_prefix,
}
use crypto_sim_backend.Transactions.Balances.{win_rate_of}
use crypto_sim_backend.Transactions.Equity.Admin.{drift_of, admin_create-equity}
use crypto_sim_backend.Transactions.AdminCreate.{admin_row, admin_users, admin_create_transaction}
use crypto_sim_backend.Transactions.Create.{insert_trade}
use crypto_sim_backend.Transactions.Calls.{run}
use crypto_sim_backend.Transactions.Equity.{equity}
use crypto_sim_backend.Transactions.Equity.Runs.{equity-run}
use crypto_sim_backend.Transactions.Statistics.{IsBooked, AllAgree, Agrees}
use crypto_sim_backend.Transactions.Statistics.Kept.{run-IsExact}
use crypto_sim_backend.Transactions.Tests.Codec.{codec}
use crypto_sim_backend.Samples.{alice, start}
use crypto_sim_backend.Transactions.Tests.Cases.{
  history, instruction, monday, settled_order, surroundings,
}

equity-run_example :
    equity 1 AccountType.real (run codec start history) ≡ equity 1 AccountType.real start
equity-run_example =
    equity-run 1 AccountType.real codec start history tt
      (tt, (tt, (refl, (tt, (tt, (tt, (tt, tt)))))))

abbrev Any : AdminCreateTransactionDto → Type 0
Any dto = Unit

start-Agrees : (uid : ℕ) (u : User) → find_unique user_id uid start.users ≡ some u → Agrees uid [] u
unfolding win_rate_of
start-Agrees uid u found = elim (Bool-cases (1 == uid)) [
  | inr miss ↦ absurd (ground arith)
  | inl hit ↦
      let same : alice ≡ u = ground arith in
      subst (Agrees uid []) same (record { trades = refl; profits = refl; wins = refl })
]

run-IsExact_example :
    All IsBooked (run codec start history).transaction_logs × AllAgree (run codec start history)
run-IsExact_example =
    run-IsExact codec Any start history tt tt start-Agrees
      (tt, (tt, (tt, (tt, (tt, (tt, (tt, tt)))))))

parse_pending_force_settle_reason_iff_example :
    (parse_pending_force_settle_reason codec
        (some (build_pending_force_settle_reason codec instruction))
      ≡ some instruction)
    ↔ ((payload : Text) × (operator : ℕ) × (some
            (build_pending_force_settle_reason codec instruction)
          ≡ some (pending_force_settle_prefix ++ payload))
        × (codec.parse payload ≡ some instruction)
        × (instruction.operator_id ≡ some operator))
parse_pending_force_settle_reason_iff_example =
    parse_pending_force_settle_reason_iff codec
      (some (build_pending_force_settle_reason codec instruction)) instruction

is_closed_iff_example :
    (is_closed monday ≡ true)
    ↔ ((4 * 1440 + 870 ≤ minute_of_week monday) × (minute_of_week monday < 6 * 1440 + 900))
is_closed_iff_example = is_closed_iff monday (omega arith) (omega arith)

normalize_trade_durations-All_example :
    (normalize_trade_durations (some (NumberValue.whole (pos 45) ∷ NumberValue.not_whole ∷ []))
      ≢ [])
    × All
        (λ n. 0 < n)
        (normalize_trade_durations (some (NumberValue.whole (pos 45) ∷ NumberValue.not_whole ∷ [])))
normalize_trade_durations-All_example =
    normalize_trade_durations-All (some (NumberValue.whole (pos 45) ∷ NumberValue.not_whole ∷ []))

abbrev created : TransactionLog × Database
created =
    let row = admin_row (surroundings 1000 20) settled_order 9 none alice start in
    (
      row,
      record start {
        transaction_logs = row ∷ [];
        users = admin_users settled_order 1 (row ∷ []) start.users;
      },
    )

admin_create-equity_example :
    equity 1 AccountType.real created.1
    ≡ equity 1 AccountType.real start
      +ℤ (if 1 == 1 then drift_of settled_order AccountType.real else pos 0)
unfolding admin_create_transaction insert_trade
admin_create-equity_example =
    admin_create-equity 1 AccountType.real (surroundings 1000 20) settled_order 9 none start created
      refl
