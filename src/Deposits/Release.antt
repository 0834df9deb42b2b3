-- ===== src/Deposits/Release.antt =====
-- `releaseExpiredAllocations`: the reservations past their time give their amounts back.
use crypto_sim_backend.Common.{
  ℕ, ◌+◌, pos, ◌-ℤ◌, ltb, ◌==◌, if◌then◌else◌, Bool, true, not, ◌&&◌, List, [], ◌∷◌, filter, any,
  length,
}
use crypto_sim_backend.Common.Table.{update, update_many}
use crypto_sim_backend.Database.{Database, DepositAddress, address_key, DepositAllocation}

abbrev pub is_lapsed : ℕ → DepositAllocation → Bool
is_lapsed now l = not l.consumed && ltb l.expires_at now

-- The map from addresses to amounts: `set(k, (get(k) ?? 0) + amount)`.
unfoldable pub add_amount : ℕ → ℕ → List (ℕ × ℕ) → List (ℕ × ℕ)
add_amount k n [] = (k, n) ∷ []
add_amount k n ((j, m) ∷ rest) =
    let later = add_amount k n rest in if j == k then (j, m + n) ∷ rest else (j, m) ∷ later

unfoldable pub decrement_map : List DepositAllocation → List (ℕ × ℕ) → List (ℕ × ℕ)
decrement_map [] amounts = amounts
decrement_map (l ∷ ls) amounts = decrement_map ls (add_amount l.address_id l.amount amounts)

abbrev pub release_amount : ℕ → DepositAddress → DepositAddress
release_amount n a = record a { pending_amount = a.pending_amount -ℤ pos n }

unfoldable pub apply_decrements : List (ℕ × ℕ) → List DepositAddress → List DepositAddress
apply_decrements [] addresses = addresses
apply_decrements ((k, n) ∷ rest) addresses =
    apply_decrements rest (update address_key k (release_amount n) addresses)

abbrev pub consume : DepositAllocation → DepositAllocation
consume l = record l { consumed = true }

unfoldable pub release_expired_allocations : ℕ → Database → ℕ × Database
release_expired_allocations now db =
    let expired = filter (is_lapsed now) db.deposit_allocations in
    (
      length expired,
      record db {
        deposit_allocations =
            update_many (λ l. any (λ e. e.id == l.id) expired) consume db.deposit_allocations;
        deposit_addresses = apply_decrements (decrement_map expired []) db.deposit_addresses;
      },
    )
