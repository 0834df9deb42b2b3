-- ===== src/Funding/Outcomes.antt =====
-- What a review that goes through has read and written.
use crypto_sim_backend.Common.{
  ℕ, ◌≡◌, refl, pos, ltb_ℤ, Bool, true, false, not, ◌&&◌, some, get_or, ok, Result-cases,
  Option-cases, Bool-cases, inl, inr, arith,
}
use crypto_sim_backend.Common.Table.{find_unique, update}
use crypto_sim_backend.Database.{
  Database, User, user_id, FundingRecord, record_key, is_deposit, is_open,
}
use crypto_sim_backend.Deposits.Addresses.{find_by_address}
use crypto_sim_backend.Deposits.Review.{Outcome, apply_review_outcome}
use crypto_sim_backend.Funding.Checks.{parse_review_action}
use crypto_sim_backend.Funding.Reviews.{
  ReviewFundingRecordDto, should_apply_balance, is_reject, reviewed_row, apply_balance,
  apply_to_pool, review_record_in_transaction, review_record,
}

pub record Reviews (now id : ℕ) (dto : ReviewFundingRecordDto) (reviewer : ℕ) (db : Database)
    (r : FundingRecord × Database) : Type 0 where
  pub action : Outcome
  pub applies : Bool
  pub old : FundingRecord
  pub user : User
  pub found : find_unique record_key id db.funding_records ≡ some old
  pub owner : find_unique user_id old.user_id db.users ≡ some user
  pub was_open : is_open old.status ≡ true
  pub asked : applies ≡ should_apply_balance action dto
  pub covered :
      applies ≡ true
      → is_deposit old.type ≡ false
      → ltb_ℤ user.real_balance (pos old.amount) ≡ false
  pub row : r.0 ≡ reviewed_row now reviewer dto action applies user.real_balance old
  pub written :
      r.1
      ≡ apply_to_pool old action (
          apply_balance applies reviewer user.real_balance old (record db {
            funding_records =
                update record_key id
                  (λ _. reviewed_row now reviewer dto action applies user.real_balance old)
                  db.funding_records;
          }))

in_transaction-Reviews :
    (now id : ℕ) (dto : ReviewFundingRecordDto) (reviewer : ℕ) (action : Outcome) (db : Database)
    (r : FundingRecord × Database)
    → review_record_in_transaction now id dto reviewer action (should_apply_balance action dto) db
      ≡ ok r
    → Reviews now id dto reviewer db r
unfolding review_record_in_transaction
in_transaction-Reviews now id dto reviewer action db r h =
    elim (Option-cases (find_unique record_key id db.funding_records)) [
      | inl missing ↦ absurd (ground arith)
      | inr (old, found) ↦ elim (Option-cases (find_unique user_id old.user_id db.users)) [
        | inl missing ↦ absurd (ground arith)
        | inr (u, owner) ↦ elim (Bool-cases (is_open old.status)) [
          | inr closed ↦ absurd (ground arith)
          | inl live ↦
              elim (Bool-cases (
                should_apply_balance action dto
                && not (is_deposit old.type)
                && ltb_ℤ u.real_balance (pos old.amount))) [
                  | inl short ↦ absurd (ground arith)
                  | inr covered ↦ record {
                    action = action;
                    applies = should_apply_balance action dto;
                    old = old;
                    user = u;
                    found = found;
                    owner = owner;
                    was_open = live;
                    asked = refl;
                    covered = λ a w. ground arith;
                    row = ground arith;
                    written = ground arith;
                  }
                ]
        ]
      ]
    ]

pub review_record-Reviews :
    (now id : ℕ) (dto : ReviewFundingRecordDto) (reviewer : ℕ) (db : Database)
    (r : FundingRecord × Database)
    → review_record now id dto reviewer db ≡ ok r
    → Reviews now id dto reviewer db r
unfolding review_record
review_record-Reviews now id dto reviewer db r h =
    elim (Result-cases (parse_review_action dto.action)) [
      | inr (e, thrown) ↦ absurd (ground arith)
      | inl (action, parsed) ↦
          elim (Bool-cases (is_reject action && get_or dto.apply_balance false)) [
            | inl refused ↦ absurd (ground arith)
            | inr allowed ↦ in_transaction-Reviews now id dto reviewer action db r (ground arith)
          ]
    ]

-- The pool's writes leave the other tables alone.
pub apply_to_pool-users :
    (r : FundingRecord) (action : Outcome) (db : Database)
    → ((apply_to_pool r action db).users ≡ db.users)
      × ((apply_to_pool r action db).balance_ledgers ≡ db.balance_ledgers)
      × ((apply_to_pool r action db).funding_records ≡ db.funding_records)
unfolding apply_review_outcome
apply_to_pool-users r action db = elim (Bool-cases (is_deposit r.type)) [
  | inr other ↦ ground arith
  | inl hit ↦ elim (Option-cases r.to_address) [
    | inl left_out ↦ ground arith
    | inr (s, given) ↦ elim (Option-cases (find_by_address s db.deposit_addresses)) [
      | inl missing ↦ ground arith
      | inr (a, found) ↦ ground arith
    ]
  ]
]
