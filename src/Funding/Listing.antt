-- ===== src/Funding/Listing.antt =====
-- The queries of FundingService (backend/src/funding/funding.service.ts). The table holds the newest
-- record first.
use crypto_sim_backend.Common.{
  given, ℕ, leb, ◌==◌, Bool, true, false, ◌&&◌, ◌||◌, List, filter, map, length, Option, none, some,
  get_or, Text, Result, ok, ◌>>=◌,
}
use crypto_sim_backend.Common.Table.{find_unique}
use crypto_sim_backend.Common.Pages.{page_rows, sort_by, is_later, passes}
use crypto_sim_backend.Database.{
  Database, User, user_id, FundingRecord, FundingType, FundingStatus, is_open,
}
use crypto_sim_backend.Auth.Admins.{Admin, admin_key}
use crypto_sim_backend.Funding.Checks.{FundingError, parse_funding_type, parse_funding_status}

pub record QueryFundingRecordsDto : Type 0 where
  pub page : Option ℕ
  pub limit : Option ℕ
  pub type : Option Text
  pub status : Option Text

-- `paging` is what it inherits.
pub record QueryAdminFundingRecordsDto : Type 0 where
  pub paging : QueryFundingRecordsDto
  pub user_id : Option ℕ
  pub username : Option Text
  pub from : Option ℕ
  pub to : Option ℕ

pub record PaginatedFundingRecords {ℓ} (A : Type ℓ) : Type ℓ where
  pub rows : List A
  pub total : ℕ
  pub page : ℕ
  pub limit : ℕ

abbrev pub same_type : FundingType → FundingType → Bool
same_type FundingType.deposit FundingType.deposit = true
same_type FundingType.withdraw FundingType.withdraw = true
same_type _ _ = false

abbrev pub same_status : FundingStatus → FundingStatus → Bool
same_status FundingStatus.pending FundingStatus.pending = true
same_status FundingStatus.completed FundingStatus.completed = true
same_status FundingStatus.failed FundingStatus.failed = true
same_status _ _ = false

unfoldable pub paginated {ℓ} :
    {A : Type ℓ} → QueryFundingRecordsDto → List A → PaginatedFundingRecords A
paginated q rows = record {
  rows = page_rows (get_or q.page 1) (get_or q.limit 20) rows;
  total = length rows;
  page = get_or q.page 1;
  limit = get_or q.limit 20;
}

unfoldable pub find_user_records :
    ℕ
    → QueryFundingRecordsDto
    → Database
    → Result FundingError (PaginatedFundingRecords FundingRecord)
find_user_records uid q db = do
  type ← parse_funding_type q.type
  status ← parse_funding_status q.status
  ok (
      paginated q (
        filter
          (λ r.
            (r.user_id == uid)
            && passes type (same_type r.type)
            && passes status (same_status r.status))
          db.funding_records))

-- A record as an administrator sees it, with the names of its user and of its reviewer.
pub record AdminFundingRecord : Type 0 where
  pub row : FundingRecord
  pub user_name : Option Text
  pub reviewer_name : Option Text

abbrev pub display_name_of : Option User → Option Text
display_name_of none = none
display_name_of (some u) = some u.display_name

abbrev pub admin_name_of : Option Admin → Option Text
admin_name_of none = none
admin_name_of (some a) = some a.display_name

abbrev pub reviewer_of : Option ℕ → List Admin → Option Text
reviewer_of none admins = none
reviewer_of (some id) admins = admin_name_of (find_unique admin_key id admins)

-- `contains` is the database's search in a text, without regard to case, and `created_at` the column
-- that the database fills when a record is written.
module _ (contains : Text → Text → Bool) (created_at : FundingRecord → ℕ) where
  abbrev pub is_named : Text → Option User → Bool
  is_named name none = false
  is_named name (some u) = contains name u.display_name || contains name u.email

  abbrev pub is_admin_queried :
      Option FundingType
      → Option FundingStatus
      → QueryAdminFundingRecordsDto
      → Database
      → FundingRecord
      → Bool
  is_admin_queried type status q db r =
      passes type (same_type r.type)
      && passes status (same_status r.status)
      && passes q.user_id (λ u. r.user_id == u)
      && passes (given q.username) (λ s. is_named s (find_unique user_id r.user_id db.users))
      && passes q.from (λ t. leb t (created_at r))
      && passes q.to (λ t. leb (created_at r) t)

  -- The records that are not reviewed come first.
  unfoldable pub find_admin_records :
      QueryAdminFundingRecordsDto
      → List Admin
      → Database
      → Result FundingError (PaginatedFundingRecords AdminFundingRecord)
  find_admin_records q admins db = do
    type ← parse_funding_type q.paging.type
    status ← parse_funding_status q.paging.status
    ok (
        paginated q.paging (
          map
            (λ r. record {
              row = r;
              user_name = display_name_of (find_unique user_id r.user_id db.users);
              reviewer_name = reviewer_of r.reviewed_by admins;
            })
            (sort_by (λ a b. is_later a.reviewed_at b.reviewed_at)
              (filter (is_admin_queried type status q db) db.funding_records))))

unfoldable pub count_admin_pending_records : Option Text → Database → Result FundingError ℕ
count_admin_pending_records type db = do
  wanted ← parse_funding_type type
  ok (
      length
        (filter (λ r. is_open r.status && passes wanted (same_type r.type)) db.funding_records))
