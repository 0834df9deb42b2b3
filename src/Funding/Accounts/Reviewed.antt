-- ===== src/Funding/Accounts/Reviewed.antt =====
-- `reviewRecord` keeps the accounts of the pool.
use crypto_sim_backend.Common.{ℕ, ◌≡◌, refl, ℤ, Bool, true, false, ok}
use crypto_sim_backend.Common.Table.{update}
use crypto_sim_backend.Database.{Database, FundingRecord, record_key}
use crypto_sim_backend.Deposits.Accounts.{IsAccounted}
use crypto_sim_backend.Funding.Reviews.{
  ReviewFundingRecordDto, apply_balance, reviewed_row, review_record,
}
use crypto_sim_backend.Funding.Outcomes.{review_record-Reviews}
use crypto_sim_backend.Funding.Balances.{closed_status, apply_balance-records}
use crypto_sim_backend.Funding.Accounts.{IsPool, apply_to_pool-IsAccounted}

apply_balance-pool :
    (applies : Bool) (reviewer : ℕ) (before : ℤ) (r : FundingRecord) (db : Database)
    → ((apply_balance applies reviewer before r db).deposit_allocations ≡ db.deposit_allocations)
      × ((apply_balance applies reviewer before r db).deposit_addresses ≡ db.deposit_addresses)
apply_balance-pool true reviewer before r db = (refl, refl)
apply_balance-pool false reviewer before r db = (refl, refl)

-- A review that goes through keeps the accounts of the pool, where the identifiers and the addresses
-- of the pool are unique: if every address has pending what is reserved at it and the open deposits
-- to it, then so it is after an approval or a rejection of any record.
pub review_record-IsAccounted :
    (now id : ℕ) (dto : ReviewFundingRecordDto) (reviewer : ℕ) (db : Database)
    (r : FundingRecord × Database)
    → review_record now id dto reviewer db ≡ ok r
    → IsPool db.deposit_addresses
    → IsAccounted db
    → IsAccounted r.1
review_record-IsAccounted now id dto reviewer db r h pool acc =
    let c = review_record-Reviews now id dto reviewer db r h in
    let row = reviewed_row now reviewer dto c.action c.applies c.user.real_balance c.old in
    let base = record db { funding_records = update record_key id (λ _. row) db.funding_records } in
    let before = c.user.real_balance in
    let paid = apply_balance c.applies reviewer before c.old base in
    let kept = apply_balance-pool c.applies reviewer before c.old base in
    rw c.written (
      apply_to_pool-IsAccounted id c.old row db paid c.found (closed_status c.action) c.was_open
        (apply_balance-records c.applies reviewer before c.old base) kept.0 kept.1 c.action pool
        acc)
