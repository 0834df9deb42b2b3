-- ===== src/Deposits/Accounts/Decrements.antt =====
-- What the aggregated decrements of `releaseExpiredAllocations` take from each address.
use mathlib.Core.Path.{subst}
use crypto_sim_backend.Common.{
  ℕ, ◌+◌, ◌≡◌, refl, sym, ap, ◌∙◌, ℤ, pos, ◌+ℤ◌, ◌-ℤ◌, +ℤ-zero, int_laws, pos_part, neg_part, ◌==◌,
  List, [], ◌∷◌, some, if◌then◌else◌, Bool-cases, Option-cases, inl, inr, arith,
}
use crypto_sim_backend.Common.Table.{
  find_unique, update, find-update_self, find-update_ne, update_missing, key_of_found,
}
use crypto_sim_backend.Database.{DepositAddress, address_key, DepositAllocation}
use crypto_sim_backend.Deposits.Release.{
  add_amount, decrement_map, release_amount, apply_decrements,
}

-- What a map holds for an address, and what a list of allocations does.
abbrev pub amount_at : ℕ → List (ℕ × ℕ) → ℕ
amount_at k [] = 0
amount_at k ((j, n) ∷ m) = let rest = amount_at k m in if j == k then n + rest else rest

abbrev pub allocated : ℕ → List DepositAllocation → ℕ
allocated k [] = 0
allocated k (l ∷ ls) =
    let rest = allocated k ls in if l.address_id == k then l.amount + rest else rest

amount_at-add_amount :
    (k j n : ℕ) (m : List (ℕ × ℕ))
    → amount_at k (add_amount j n m) ≡ amount_at k m + (if j == k then n else 0)
unfolding add_amount
amount_at-add_amount k j n [] = ground arith
amount_at-add_amount k j n ((i, p) ∷ m) = ground (arith, amount_at-add_amount k j n m)

pub amount_at-decrement_map :
    (k : ℕ) (ls : List DepositAllocation) (m : List (ℕ × ℕ))
    → amount_at k (decrement_map ls m) ≡ amount_at k m + allocated k ls
unfolding decrement_map
amount_at-decrement_map k [] m = omega arith
amount_at-decrement_map k (l ∷ ls) m = ground (
  arith,
  amount_at-decrement_map k ls (add_amount l.address_id l.amount m),
  amount_at-add_amount k l.address_id l.amount m,
)

-- An address after the decrements, against the one before.
pub record Released (k n : ℕ) (addresses : List DepositAddress) (a' : DepositAddress) : Type 0 where
  pub a : DepositAddress
  pub found : find_unique address_key k addresses ≡ some a
  pub same : (a'.id ≡ a.id) × (a'.address ≡ a.address)
  pub moved : a.pending_amount ≡ a'.pending_amount +ℤ pos n

gives_back : (p q : ℤ) (m n : ℕ) → p -ℤ pos n ≡ q +ℤ pos m → p ≡ q +ℤ pos (n + m)
gives_back p q m n e = omega (int_laws, ap pos_part e, ap neg_part e)

pub apply_decrements-Released :
    (k : ℕ) (m : List (ℕ × ℕ)) (addresses : List DepositAddress) (a' : DepositAddress)
    → find_unique address_key k (apply_decrements m addresses) ≡ some a'
    → Released k (amount_at k m) addresses a'
unfolding apply_decrements
apply_decrements-Released k [] addresses a' h = record {
  a = a';
  found = h;
  same = (refl, refl);
  moved = sym (+ℤ-zero a'.pending_amount);
}
apply_decrements-Released k ((j, n) ∷ m) addresses a' h =
    let later =
      apply_decrements-Released k m (update address_key j (release_amount n) addresses) a' h in
    elim (Bool-cases (j == k)) [
      | inr miss ↦ record {
        a = later.a;
        found =
            sym (
              find-update_ne address_key k j (release_amount n) addresses (ground arith)
                (λ v. refl))
            ∙ later.found;
        same = later.same;
        moved = rw miss later.moved;
      }
      | inl hit ↦
          let e : j ≡ k = ground arith in
          let at_k : find_unique address_key k (update address_key k (release_amount n) addresses)
              ≡ some later.a =
            subst
              (λ i.
                find_unique address_key k (update address_key i (release_amount n) addresses)
                ≡ some later.a)
              e later.found in
          elim (Option-cases (find_unique address_key k addresses)) [
            | inl missing ↦
                let gone = update_missing address_key k (release_amount n) addresses missing in
                absurd (ground (arith, gone, at_k, missing))
            | inr (b, found) ↦
                let self =
                  find-update_self address_key k (release_amount n) addresses b found
                    (key_of_found address_key k addresses b found) in
                let is_b : later.a ≡ release_amount n b = ground (arith, self, at_k) in
                record {
                  a = b;
                  found = found;
                  same =
                      (later.same.0 ∙ ap (λ x. x.id) is_b, later.same.1 ∙ ap (λ x. x.address) is_b);
                  moved = rw hit (
                      gives_back b.pending_amount a'.pending_amount (amount_at k m) n
                        (sym (ap (λ x. x.pending_amount) is_b) ∙ later.moved));
                }
          ]
    ]
