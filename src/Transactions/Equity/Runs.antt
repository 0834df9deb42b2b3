-- ===== src/Transactions/Equity/Runs.antt =====
-- The equity along every history of calls.
use crypto_sim_backend.Common.{
  ℕ, ◌≡◌, refl, ap, ◌∙◌, pos, ◌+ℤ◌, true, List, All, sum, ◌==◌, if◌then◌else◌, arith, sum_moves,
}
use crypto_sim_backend.Common.Table.{update, sum-update}
use crypto_sim_backend.Database.{Database, AccountType, TransactionLog, order_key, is_pending}
use crypto_sim_backend.Transactions.Inputs.{AdminCreateTransactionDto}
use crypto_sim_backend.Transactions.Reasons.{Json}
use crypto_sim_backend.Transactions.AdminCreate.{status_of}
use crypto_sim_backend.Transactions.Calls.{Call, run}
use crypto_sim_backend.Transactions.Outcomes.Relabels.{Relabels}
use crypto_sim_backend.Transactions.Changes.{
  Change, opened, admin_opened, settled, canceled, relabeled, Changes-keep, run-Changes, Allowed,
}
use crypto_sim_backend.Transactions.Owners.{HasOwners}
use crypto_sim_backend.Transactions.Owners.Kept.{Change-HasOwners}
use crypto_sim_backend.Transactions.Equity.{stake, equity, held}
use crypto_sim_backend.Transactions.Equity.Settling.{equity-Settles}
use crypto_sim_backend.Transactions.Equity.Opening.{equity-Creates, equity-Cancels, no_drift}
use crypto_sim_backend.Transactions.Equity.Admin.{drift_of, equity-AdminCreates}

-- The stake of the trade is taken when it is created.
abbrev pub IsFunded : AdminCreateTransactionDto → Type 0
IsFunded dto = is_pending (status_of dto) ≡ true

module _ (uid : ℕ) (account : AccountType) where
  equity-Relabels :
      (order : ℕ) (db : Database) (r : TransactionLog × Database)
      → Relabels order db r
      → equity uid account r.1 ≡ equity uid account db
  unfolding equity
  equity-Relabels order db r c =
      let same : stake uid account r.0 ≡ stake uid account c.trade = ground arith in
      let h = held uid account db.users in
      let logs = db.transaction_logs in
      rw c.applied (
        sum_moves h h h h (sum (stake uid account) logs)
          (sum (stake uid account) (update order_key order (λ _. r.0) logs))
          (stake uid account c.trade) (stake uid account r.0) refl refl
          (sum-update order_key (stake uid account) order (λ _. r.0) logs c.trade c.found)
          (ap (λ a. h +ℤ a) same))

  drift_of_funded : (dto : AdminCreateTransactionDto) → IsFunded dto → drift_of dto account ≡ pos 0
  drift_of_funded dto h = ground arith

  equity-Change :
      (json : Json) (db : Database) (r : TransactionLog × Database)
      → Change json IsFunded db r
      → HasOwners db
      → equity uid account r.1 ≡ equity uid account db
  equity-Change json db r (opened s owner dto c) owners =
      equity-Creates uid account s owner dto db r c
  equity-Change json db r (admin_opened s dto operator name funded c) owners =
      equity-AdminCreates uid account s dto operator name db r c
      ∙ ap (λ d. equity uid account db +ℤ (if dto.user_id == uid then d else pos 0))
          (drift_of_funded dto funded)
      ∙ no_drift (equity uid account db) (dto.user_id == uid)
  equity-Change json db r (settled now market order exit o c) owners =
      equity-Settles uid account json now market order exit o db r owners c
  equity-Change json db r (canceled order user c) owners =
      equity-Cancels uid account order user db r owners c
  equity-Change json db r (relabeled order c) owners = equity-Relabels order db r c

  -- Let every trade belong to a user of the table, and let every trade that an administrator creates
  -- in the history be created with the status PENDING. Then no history of calls, in any order and
  -- with any failures, changes the equity of an account: its balance plus the stakes of its open
  -- trades minus the returns of its settled ones.
  pub equity-run :
      (json : Json) (db : Database) (cs : List Call)
      → HasOwners db
      → All (Allowed json IsFunded) cs
      → equity uid account (run json db cs) ≡ equity uid account db
  equity-run json db cs owners allowed =
      (Changes-keep json IsFunded
        (λ db'. HasOwners db' × (equity uid account db' ≡ equity uid account db))
        (λ d r c h. (Change-HasOwners json IsFunded d r c h.0, equity-Change json d r c h.0 ∙ h.1))
        (run-Changes json IsFunded db cs allowed) (owners, refl)).1
