-- ===== src/Deposits/Accounts/Releasing.antt =====
-- `releaseExpiredAllocations` keeps the accounts.
use mathlib.Core.Path.{subst}
use crypto_sim_backend.Common.{
  ℕ, ◌+◌, ◌≡◌, refl, sym, ap, ◌∙◌, ℤ, pos, ◌+ℤ◌, +ℤ-zero, int_laws, pos_part, neg_part, Bool, true,
  false, ◌==◌, List, [], ◌∷◌, some, sum, filter, any, All, All-map, Bool-cases, inl, inr, arith,
}
use crypto_sim_backend.Common.Table.{find_unique, update_many, key_of_found}
use crypto_sim_backend.Database.{Database, address_key, DepositAllocation, allocation_key}
use crypto_sim_backend.Deposits.Release.{
  is_lapsed, decrement_map, consume, release_expired_allocations,
}
use crypto_sim_backend.Deposits.Accounts.Decrements.{
  amount_at, allocated, amount_at-decrement_map, apply_decrements-Released,
}
use crypto_sim_backend.Deposits.Accounts.{reserved, awaiting, IsAccounted}

-- Every allocation is the one found at its identifier.
abbrev pub IsKeyed : List DepositAllocation → Type 0
IsKeyed ls = All (λ l. find_unique allocation_key l.id ls ≡ some l) ls

has_id-lapsed :
    (now : ℕ) (l : DepositAllocation) (ls : List DepositAllocation)
    → find_unique allocation_key l.id ls ≡ some l
    → is_lapsed now l ≡ true
    → any (λ e. e.id == l.id) (filter (is_lapsed now) ls) ≡ true
has_id-lapsed now l [] found h = cc
has_id-lapsed now l (y ∷ ls) found h = ground (arith, has_id-lapsed now l ls)

has_id-current :
    (now : ℕ) (l : DepositAllocation) (ls xs : List DepositAllocation)
    → find_unique allocation_key l.id ls ≡ some l
    → All (λ e. find_unique allocation_key e.id ls ≡ some e) xs
    → is_lapsed now l ≡ false
    → any (λ e. e.id == l.id) (filter (is_lapsed now) xs) ≡ false
has_id-current now l ls [] found keyed h = refl
has_id-current now l ls (y ∷ xs) found keyed h =
    let rest = has_id-current now l ls xs found keyed.1 h in
    let own = keyed.0 in
    elim (Bool-cases (y.id == l.id)) [
      | inr miss ↦ ground (arith, rest)
      | inl hit ↦
          let e : y.id ≡ l.id = ground arith in
          let at_l = subst (λ i. find_unique allocation_key i ls ≡ some y) e own in
          ground (arith, rest, at_l, found)
    ]

-- One more item, that stays, that counts nowhere, and that is released.
item_stays : (s s' r : ℤ) (m : ℕ) → s' +ℤ pos m ≡ s → (r +ℤ s') +ℤ pos m ≡ r +ℤ s
item_stays s s' r m e = omega (int_laws, ap pos_part e, ap neg_part e)

item_released : (s s' : ℤ) (n m : ℕ) → s' +ℤ pos m ≡ s → (pos 0 +ℤ s') +ℤ pos (n + m) ≡ pos n +ℤ s
item_released s s' n m e = omega (int_laws, ap pos_part e, ap neg_part e)

-- `q` consumes exactly the lapsed ones of `xs`.
reserved_after :
    (now k : ℕ) (q : DepositAllocation → Bool) (xs : List DepositAllocation)
    → All (λ l. q l ≡ is_lapsed now l) xs
    → sum (reserved k) (update_many q consume xs) +ℤ pos (allocated k (filter (is_lapsed now) xs))
      ≡ sum (reserved k) xs
reserved_after now k q [] agree = +ℤ-zero (pos 0)
reserved_after now k q (l ∷ xs) agree =
    let rest = reserved_after now k q xs agree.1 in
    let here = agree.0 in
    elim (Bool-cases (is_lapsed now l)) [
      | inr current ↦
          rw (here, current)
            (item_stays (sum (reserved k) xs) (sum (reserved k) (update_many q consume xs))
              (reserved k l) (allocated k (filter (is_lapsed now) xs)) rest)
      | inl lapsed ↦
          let live : l.consumed ≡ false = ground arith in
          elim (Bool-cases (l.address_id == k)) [
            | inl hit ↦
                rw (here, lapsed, live, hit)
                  (item_released (sum (reserved k) xs) (sum (reserved k) (update_many q consume xs))
                    l.amount (allocated k (filter (is_lapsed now) xs)) rest)
            | inr miss ↦
                rw (here, lapsed, live, miss)
                  (item_stays (sum (reserved k) xs) (sum (reserved k) (update_many q consume xs))
                    (pos 0) (allocated k (filter (is_lapsed now) xs)) rest)
          ]
    ]

lapsed_ids :
    (now : ℕ) (ls : List DepositAllocation)
    → IsKeyed ls
    → All (λ l. any (λ e. e.id == l.id) (filter (is_lapsed now) ls) ≡ is_lapsed now l) ls
lapsed_ids now ls keyed =
    All-map ls
      (λ l found. elim (Bool-cases (is_lapsed now l)) [
        | inl lapsed ↦ has_id-lapsed now l ls found lapsed ∙ sym lapsed
        | inr current ↦ has_id-current now l ls ls found keyed current ∙ sym current
      ])
      keyed

none_before :
    (k : ℕ) (ls : List DepositAllocation) → amount_at k [] + allocated k ls ≡ allocated k ls
none_before k ls = omega arith

balances : (p p' r r' w : ℤ) (n : ℕ) → p ≡ p' +ℤ pos n → p ≡ r +ℤ w → r' +ℤ pos n ≡ r → p' ≡ r' +ℤ w
balances p p' r r' w n e f g = omega (
  int_laws,
  ap pos_part e,
  ap neg_part e,
  ap pos_part f,
  ap neg_part f,
  ap pos_part g,
  ap neg_part g,
)

-- The release of expired allocations keeps the accounts of the pool, where the identifiers of the
-- allocations are unique: every address still has pending what is reserved at it and what awaits a
-- review.
pub release_expired_allocations-IsAccounted :
    (now : ℕ) (db : Database)
    → IsKeyed db.deposit_allocations
    → IsAccounted db
    → IsAccounted (release_expired_allocations now db).1
unfolding release_expired_allocations
release_expired_allocations-IsAccounted now db keyed acc k a' found =
    let ls = db.deposit_allocations in
    let expired = filter (is_lapsed now) ls in
    let released =
      apply_decrements-Released k (decrement_map expired []) db.deposit_addresses a' found in
    let a = released.a in
    let w = sum (awaiting a.address) db.funding_records in
    let is_k : a.id ≡ k = key_of_found address_key k db.deposit_addresses a released.found in
    let r' = sum (reserved a.id) (update_many (λ l. any (λ e. e.id == l.id) expired) consume ls) in
    let total : a.pending_amount ≡ a'.pending_amount +ℤ pos (allocated a.id expired) =
      released.moved
      ∙ ap (λ n. a'.pending_amount +ℤ pos n)
          (amount_at-decrement_map k expired []
            ∙ none_before k expired
            ∙ ap (λ i. allocated i expired) (sym is_k)) in
    rw (released.same.0, released.same.1)
      (balances a.pending_amount a'.pending_amount (sum (reserved a.id) ls) r' w
        (allocated a.id expired) total (acc k a released.found)
        (reserved_after now a.id (λ l. any (λ e. e.id == l.id) expired) ls
          (lapsed_ids now ls keyed)))
