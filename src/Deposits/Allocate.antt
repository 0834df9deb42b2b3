-- ===== src/Deposits/Allocate.antt =====
-- `allocateForUser`: an address with room for the amount, and a reservation of it for 30 minutes.
use crypto_sim_backend.Common.{
  ℕ, ◌+◌, ◌*◌, pos, ◌+ℤ◌, ◌-ℤ◌, leb_ℤ, ltb, leb, ◌==◌, if◌then◌else◌, Bool, true, false, not, ◌&&◌,
  ◌||◌, List, [], ◌∷◌, any, filter, take, Option, none, some, text_eq, Result, ok, ◌>>=◌, or_throw,
}
use crypto_sim_backend.Common.Table.{update}
use crypto_sim_backend.Database.{
  Database, DepositAddress, address_key, is_risky, DepositAllocation, FundingNetwork, FundingRecord,
  is_deposit, same_network,
}
use crypto_sim_backend.Deposits.Addresses.{DepositError}

abbrev pub allocation_ttl_ms : ℕ
allocation_ttl_ms = 30 * 60 * 1000

abbrev pub below_max : ℕ → Option ℕ → Bool
below_max amount none = true
below_max amount (some high) = leb amount high

-- The query's conditions.
unfoldable pub is_candidate : ℕ → FundingNetwork → DepositAddress → Bool
is_candidate amount network a =
    same_network a.network network
    && a.enabled
    && not (is_risky a.risk_status)
    && leb a.min_amount amount
    && below_max amount a.max_amount

abbrev pub has_room : ℕ → DepositAddress → Bool
has_room amount a = elim a.capacity [
  | none ↦ true
  | some c ↦ leb_ℤ (pos amount) ((pos c -ℤ a.used_amount) -ℤ a.pending_amount)
]

-- A deposit record of the user to one of the addresses; the query takes the 50 latest.
abbrev pub goes_to : DepositAddress → FundingRecord → Bool
goes_to a r = elim r.to_address [ none ↦ false | some s ↦ text_eq s a.address ]

abbrev pub is_recent_of : ℕ → List DepositAddress → FundingRecord → Bool
is_recent_of uid fits r = (r.user_id == uid) && is_deposit r.type && any (λ a. goes_to a r) fits

-- A reservation that is neither consumed nor past its time.
abbrev pub is_held : ℕ → DepositAllocation → Bool
is_held now l = not l.consumed && leb now l.expires_at

-- `usedByThisUser.has(a.address)`
unfoldable pub is_used : ℕ → ℕ → List DepositAddress → Database → DepositAddress → Bool
is_used now uid fits db a =
    any (goes_to a) (take 50 (filter (is_recent_of uid fits) db.funding_records))
    || any
        (λ c.
          text_eq c.address a.address
          && any (λ l. (l.user_id == uid) && is_held now l && (l.address_id == c.id))
              db.deposit_allocations)
        fits

-- The comparison of the sort: whether `a` stands strictly before `b`.
abbrev pub is_older : DepositAddress → DepositAddress → Bool
is_older a b =
    ltb a.sort_order b.sort_order
    || ((a.sort_order == b.sort_order) && ltb a.created_at b.created_at)

unfoldable pub goes_before : (DepositAddress → Bool) → DepositAddress → DepositAddress → Bool
goes_before used a b = if used a then used b && is_older a b else used b || is_older a b

abbrev pub earlier :
    (DepositAddress → Bool) → DepositAddress → Option DepositAddress → DepositAddress
earlier used a none = a
earlier used a (some b) = if goes_before used b a then b else a

-- `sorted[0]`: the first of those that nothing goes before.
unfoldable pub first_sorted : (DepositAddress → Bool) → List DepositAddress → Option DepositAddress
first_sorted used [] = none
first_sorted used (a ∷ rest) = some (earlier used a (first_sorted used rest))

abbrev pub fitting : ℕ → FundingNetwork → List DepositAddress → List DepositAddress
fitting amount network addresses =
    filter (has_room amount) (filter (is_candidate amount network) addresses)

abbrev pub reserve : ℕ → DepositAddress → DepositAddress
reserve amount a = record a { pending_amount = a.pending_amount +ℤ pos amount }

abbrev pub new_allocation : ℕ → ℕ → ℕ → ℕ → DepositAddress → DepositAllocation
new_allocation now id uid amount a = record {
  id = id;
  address_id = a.id;
  user_id = uid;
  amount = amount;
  expires_at = now + allocation_ttl_ms;
  consumed = false;
}

abbrev pub allocate_at : ℕ → ℕ → ℕ → ℕ → DepositAddress → Database → Database
allocate_at now id uid amount a db = record db {
  deposit_addresses = update address_key a.id (reserve amount) db.deposit_addresses;
  deposit_allocations = new_allocation now id uid amount a ∷ db.deposit_allocations;
}

unfoldable pub allocate_for_user :
    ℕ → ℕ → ℕ → ℕ → FundingNetwork → Database → Result DepositError (DepositAddress × Database)
allocate_for_user now id uid amount network db = do
  let fits = fitting amount network db.deposit_addresses
  a ← or_throw (first_sorted (is_used now uid fits db) fits) DepositError.no_available_address
  ok (a, allocate_at now id uid amount a db)
