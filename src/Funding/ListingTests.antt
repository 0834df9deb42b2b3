-- ===== src/Funding/ListingTests.antt =====
-- The queries of the funding records on concrete rows.
use crypto_sim_backend.Common.{◌≡◌, refl, [], ◌∷◌, none, some, text, text_eq, ok, err}
use crypto_sim_backend.Samples.{start}
use crypto_sim_backend.Database.{
  Database, FundingRecord, FundingType, FundingNetwork, FundingStatus,
}
use crypto_sim_backend.Funding.Checks.{FundingError}
use crypto_sim_backend.Funding.Requests.{request_row}
use crypto_sim_backend.Funding.Listing.{
  QueryFundingRecordsDto, paginated, find_user_records, find_admin_records,
  count_admin_pending_records,
}

abbrev old : FundingRecord
old =
    record (request_row 7 1 FundingType.withdraw 400 (text "USDT") 400 FundingNetwork.trc20 none
      (text "T") none) {
        status = FundingStatus.completed;
        reviewed_at = some 50;
        reviewed_by = some 9;
      }

abbrev new : FundingRecord
new =
    request_row 8 1 FundingType.withdraw 100 (text "USDT") 100 FundingNetwork.trc20 none (text "T")
      none

abbrev asked : Database
asked = record start { funding_records = old ∷ new ∷ [] }

abbrev withdrawals : QueryFundingRecordsDto
withdrawals = record { page = none; limit = none; type = some (text "withdraw"); status = none }

both_listed : find_user_records 1 withdrawals asked ≡ ok (paginated withdrawals (old ∷ new ∷ []))
unfolding find_user_records crypto_sim_backend.Funding.Checks.parse_funding_type
    crypto_sim_backend.Funding.Checks.parse_funding_status
both_listed = refl

-- What waits for a review stands first.
waiting_first :
    find_admin_records text_eq
      (λ r. 0)
      (record {
        paging = withdrawals;
        user_id = none;
        username = some (text "alice");
        from = none;
        to = none;
      })
      []
      asked
    ≡ ok (
        paginated withdrawals (
          record { row = new; user_name = some (text "alice"); reviewer_name = none }
          ∷ record { row = old; user_name = some (text "alice"); reviewer_name = none }
          ∷ []))
unfolding find_admin_records crypto_sim_backend.Funding.Checks.parse_funding_type
    crypto_sim_backend.Funding.Checks.parse_funding_status
waiting_first = refl

one_pending : count_admin_pending_records none asked ≡ ok 1
unfolding count_admin_pending_records crypto_sim_backend.Funding.Checks.parse_funding_type
one_pending = refl

wrong_type :
    count_admin_pending_records (some (text "gift")) asked ≡ err FundingError.validation_error
unfolding count_admin_pending_records crypto_sim_backend.Funding.Checks.parse_funding_type
wrong_type = refl
