-- ===== src/Funding/Tests.antt =====
-- The theorems on reviews at a concrete withdrawal.
use crypto_sim_backend.Common.{
  ◌≡◌, refl, pos, ◌+ℤ◌, ◌≤ℤ◌, true, [], ◌∷◌, none, some, text, ok, err, arith,
}
use crypto_sim_backend.Samples.{alice, start}
use crypto_sim_backend.Database.{Database, AccountType, FundingRecord, FundingType, FundingNetwork}
use crypto_sim_backend.Transactions.Equity.{held}
use crypto_sim_backend.Deposits.Review.{Outcome}
use crypto_sim_backend.Funding.Checks.{FundingError}
use crypto_sim_backend.Funding.Requests.{request_row}
use crypto_sim_backend.Funding.Reviews.{
  ReviewFundingRecordDto, review_record, review_record_in_transaction, reviewed_row, ledger_row,
  set_real_balance,
}
use crypto_sim_backend.Funding.Balances.{unledgered, review-ledger, review-covered, review-once}

abbrev withdrawal : FundingRecord
withdrawal =
    request_row 7 1 FundingType.withdraw 400 (text "USDT") 400 FundingNetwork.trc20 none (text "T")
      none

abbrev asked : Database
asked = record start { funding_records = withdrawal ∷ [] }

abbrev approval : ReviewFundingRecordDto
approval = record {
  action = text "approve";
  apply_balance = none;
  review_note = some (text " ok ");
}

abbrev approved_row : FundingRecord
approved_row = reviewed_row 50 9 approval Outcome.approve true (pos 1000) withdrawal

abbrev approved : Database
approved = record asked {
  funding_records = approved_row ∷ [];
  users = set_real_balance (pos 600) alice ∷ [];
  balance_ledgers = ledger_row 9 (pos 1000) withdrawal ∷ [];
}

approval_lem : review_record 50 7 approval 9 asked ≡ ok (approved_row, approved)
unfolding review_record review_record_in_transaction ◌+ℤ◌
approval_lem = refl

review-ledger_example : unledgered 1 approved ≡ unledgered 1 asked
review-ledger_example = review-ledger 50 7 approval 9 asked (approved_row, approved) approval_lem 1

review-covered_example : pos 0 ≤ℤ held 1 AccountType.real approved.users
review-covered_example =
    review-covered 50 7 approval 9 asked (approved_row, approved) approval_lem 1 (omega arith)

review-once_example : (e : FundingError) × (review_record 60 7 approval 8 approved ≡ err e)
review-once_example =
    review-once 50 7 approval 9 asked (approved_row, approved) approval_lem 60 approval 8
