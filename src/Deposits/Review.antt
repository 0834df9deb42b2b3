-- ===== src/Deposits/Review.antt =====
-- `consumeAllocation` and `applyReviewOutcome`: what the funding service does to the pool.
use crypto_sim_backend.Common.{
  ℕ, pos, ◌+ℤ◌, ◌-ℤ◌, ◌==◌, Bool, true, false, ◌&&◌, find?, Option, none, some, Text,
}
use crypto_sim_backend.Common.Table.{update}
use crypto_sim_backend.Database.{
  Database, DepositAddress, address_key, DepositAllocation, allocation_key,
}
use crypto_sim_backend.Deposits.Addresses.{find_by_address}
use crypto_sim_backend.Deposits.Allocate.{is_held}
use crypto_sim_backend.Deposits.Release.{consume, release_amount}

-- The user's reservation of this amount at the address; the latest stands first.
abbrev pub is_matching : ℕ → ℕ → ℕ → ℕ → DepositAllocation → Bool
is_matching now uid address_id amount l =
    (l.user_id == uid) && (l.address_id == address_id) && is_held now l && (l.amount == amount)

abbrev pub consume_found : Option DepositAllocation → Database → Bool × Database
consume_found none db = (false, db)
consume_found (some l) db = (
  true,
  record db { deposit_allocations = update allocation_key l.id consume db.deposit_allocations },
)

unfoldable pub consume_allocation : ℕ → ℕ → Text → ℕ → Database → Bool × Database
consume_allocation now uid address amount db = elim (find_by_address address db.deposit_addresses) [
  | none ↦ (false, db)
  | some a ↦ consume_found (find? (is_matching now uid a.id amount) db.deposit_allocations) db
]

pub data Outcome : Type 0 where
  approve reject : Outcome

-- The amount leaves the pending ones, and counts as used where the review approves.
abbrev pub settle_amount : Outcome → ℕ → DepositAddress → DepositAddress
settle_amount Outcome.approve n a = record a {
  pending_amount = a.pending_amount -ℤ pos n;
  used_amount = a.used_amount +ℤ pos n;
}
settle_amount Outcome.reject n a = release_amount n a

abbrev pub outcome_at : Option DepositAddress → ℕ → Outcome → Database → Database
outcome_at none n outcome db = db
outcome_at (some a) n outcome db = record db {
  deposit_addresses = update address_key a.id (settle_amount outcome n) db.deposit_addresses;
}

unfoldable pub apply_review_outcome : Option Text → ℕ → Outcome → Database → Database
apply_review_outcome none n outcome db = db
apply_review_outcome (some address) n outcome db =
    outcome_at (find_by_address address db.deposit_addresses) n outcome db
