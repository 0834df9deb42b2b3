-- ===== src/Transactions/Tests/Presets.antt =====
-- The theorem on presets at a concrete trade.
use crypto_sim_backend.Common.{◌≡◌, refl, pos, [], ◌∷◌, none, some, ok}
use crypto_sim_backend.Samples.{alice, start}
use crypto_sim_backend.Database.{Database, TransactionLog}
use crypto_sim_backend.Transactions.Inputs.{ForcedResult, no_options}
use crypto_sim_backend.Transactions.Create.{new_row}
use crypto_sim_backend.Transactions.Cancel.{force_settled_row, force_settle_transaction}
use crypto_sim_backend.Transactions.Settle.{settle_transaction_by_system}
use crypto_sim_backend.Transactions.Forced.{IsForced, force_settle-settle}
use crypto_sim_backend.Transactions.Tests.Codec.{codec}
use crypto_sim_backend.Transactions.Tests.Cases.{surroundings, real_order, force_win}

abbrev pub trade : TransactionLog
trade = new_row (surroundings 1000 10) 1 real_order alice start

abbrev traded : Database
traded = record start { transaction_logs = trade ∷ [] }

abbrev marked : TransactionLog
marked = force_settled_row codec 4000 force_win trade

abbrev preset : Database
preset = record start { transaction_logs = marked ∷ [] }

preset_lem : force_settle_transaction codec 4000 10 force_win traded ≡ ok (marked, preset)
unfolding force_settle_transaction new_row
preset_lem = refl

force_settle-settle_example :
    (r : TransactionLog × Database) × (settle_transaction_by_system codec 61000 none 10
        (some (pos 39000))
        no_options
        preset
      ≡ ok r)
    × IsForced ForcedResult.win (some (pos 39000)) marked r.0
force_settle-settle_example =
    force_settle-settle codec 4000 10 force_win ForcedResult.win traded (marked, preset) preset_lem
      refl 61000 none (pos 39000) no_options refl
