-- ===== src/Deposits/Picking.antt =====
-- Which address `allocateForUser` picks.
use mathlib.Core.Path.{subst}
use crypto_sim_backend.Common.{
  ℕ, ltb, ◌≡◌, refl, Bool, true, false, List, [], ◌∷◌, some, All, All-map, filter, Bool-cases,
  Option-cases, inl, inr, arith, ok,
}
use crypto_sim_backend.Database.{Database, DepositAddress, FundingNetwork}
use crypto_sim_backend.Deposits.Fitting.{Fits, Any, Uses, IsNotAfter, Fits-iff, is_used_iff}
use crypto_sim_backend.Deposits.Allocate.{
  is_older, is_candidate, has_room, fitting, is_used, goes_before, earlier, first_sorted,
  allocate_for_user,
}

All-filter {ℓ} : {A : Type ℓ} (p : A → Bool) (xs : List A) → All (λ x. p x ≡ true) (filter p xs)
All-filter p [] = tt
All-filter p (x ∷ xs) = elim (Bool-cases (p x)) [
  | inl hit ↦ rw hit (hit, All-filter p xs)
  | inr miss ↦ rw miss (All-filter p xs)
]

All-filter_kept {ℓ κ} :
    {A : Type ℓ} (P : A → Type κ) (p : A → Bool) (xs : List A) → All P xs → All P (filter p xs)
All-filter_kept P p [] h = tt
All-filter_kept P p (x ∷ xs) h = elim (Bool-cases (p x)) [
  | inl hit ↦ rw hit (h.0, All-filter_kept P p xs h.1)
  | inr miss ↦ rw miss (All-filter_kept P p xs h.1)
]

module _ (used : DepositAddress → Bool) where
  goes_before_irreflexive : (a : DepositAddress) → goes_before used a a ≡ false
  unfolding goes_before
  goes_before_irreflexive a = ground arith

  goes_before_asymmetric :
      (a b : DepositAddress) → goes_before used a b ≡ true → goes_before used b a ≡ false
  unfolding goes_before
  goes_before_asymmetric a b h = ground arith

  goes_before_trans :
      (a b c : DepositAddress)
      → goes_before used a b ≡ false
      → goes_before used b c ≡ false
      → goes_before used a c ≡ false
  unfolding goes_before
  goes_before_trans a b c h k = ground arith

  first_sorted-least :
      (xs : List DepositAddress) (a : DepositAddress)
      → first_sorted used xs ≡ some a
      → All (λ b. goes_before used b a ≡ false) xs
  unfolding first_sorted
  first_sorted-least [] a h = tt
  first_sorted-least (x ∷ []) a h =
      let e : x ≡ a = ground arith in
      subst (λ c. All (λ b. goes_before used b c ≡ false) (x ∷ [])) e
        (goes_before_irreflexive x, tt)
  first_sorted-least (x ∷ y ∷ ys) a h =
      let m = earlier used y (first_sorted used ys) in
      let rest = first_sorted-least (y ∷ ys) m refl in
      elim (Bool-cases (goes_before used m x)) [
        | inl lower ↦
            let e : m ≡ a = ground arith in
            subst (λ c. All (λ b. goes_before used b c ≡ false) (x ∷ y ∷ ys)) e
              (goes_before_asymmetric m x lower, rest)
        | inr higher ↦
            let e : x ≡ a = ground arith in
            subst (λ c. All (λ b. goes_before used b c ≡ false) (x ∷ y ∷ ys)) e
              (
                goes_before_irreflexive x,
                All-map (y ∷ ys) (λ b h. goes_before_trans b m x h higher) rest,
              )
      ]

  first_sorted-All {κ} :
      (P : DepositAddress → Type κ) (xs : List DepositAddress) (a : DepositAddress)
      → All P xs
      → first_sorted used xs ≡ some a
      → P a
  unfolding first_sorted
  first_sorted-All P [] a h e = cc
  first_sorted-All P (x ∷ []) a h e = let same : x ≡ a = ground arith in subst P same h.0
  first_sorted-All P (x ∷ y ∷ ys) a h e =
      let m = earlier used y (first_sorted used ys) in
      elim (Bool-cases (goes_before used m x)) [
        | inl lower ↦
            let same : m ≡ a = ground arith in subst P same (first_sorted-All P (y ∷ ys) m h.1 refl)
        | inr higher ↦ let same : x ≡ a = ground arith in subst P same h.0
      ]

All-filtered {ℓ} :
    {A : Type ℓ} (P : A → Type 0) (p : A → Bool) (xs : List A)
    → All P (filter p xs)
    → All (λ x. p x ≡ true → P x) xs
All-filtered P p [] h = tt
All-filtered P p (x ∷ xs) h = elim (Bool-cases (p x)) [
  | inl hit ↦ let k = rw hit at h in ((λ _. k.0), All-filtered P p xs k.1)
  | inr miss ↦ ((λ e. absurd (ground arith)), All-filtered P p xs (rw miss at h))
]

All-in : (xs : List DepositAddress) → All (λ x. Any (λ y. y ≡ x) xs) xs
All-in [] = tt
All-in (x ∷ xs) = (inl refl, All-map xs (λ y m. inr m) (All-in xs))

-- What stands first: an address of the user's only if the other one is too, and among alike ones the
-- one that is not after.
abbrev pub Precedes : (DepositAddress → Type 0) → DepositAddress → DepositAddress → Type 0
Precedes U a b = (U a → U b) × ((U b → U a) → IsNotAfter a b)

not_older : (a b : DepositAddress) → is_older b a ≡ false → IsNotAfter a b
not_older a b h = elim (Bool-cases (ltb a.sort_order b.sort_order)) [
  | inl lower ↦ inl (ground arith)
  | inr higher ↦ inr (ground arith, ground arith)
]

goes_before-Precedes :
    (now uid : ℕ) (fits : List DepositAddress) (db : Database) (a b : DepositAddress)
    → goes_before (is_used now uid fits db) b a ≡ false
    → Precedes (Uses now uid fits db) a b
unfolding goes_before
goes_before-Precedes now uid fits db a b h =
    let used = is_used now uid fits db in
    let ua = is_used_iff now uid fits db a in
    let ub = is_used_iff now uid fits db b in
    let earlier_used : used a ≡ true → used b ≡ true = (λ e. ground arith) in
    (
      (λ x. ub.0 (earlier_used (ua.1 x))),
      (λ f.
          let alike : used b ≡ true → used a ≡ true = (λ e. ua.1 (f (ub.0 e))) in
          not_older a b (elim (Bool-cases (used b)) [
            | inl hit ↦ let e = alike hit in ground arith
            | inr miss ↦ ground arith
          ])),
    )

-- An allocation that goes through gives an address of the table that meets the query's conditions and
-- has room for the amount. Before every other such address it stands first: it is one that the user
-- has used, by a recent deposit or a live reservation, only where the other is too, and where not just
-- one of them is used, its number in the order is lower, or the same with the address no younger.
pub allocate_for_user-picks :
    (now id uid amount : ℕ) (network : FundingNetwork) (db : Database)
    (r : DepositAddress × Database)
    → allocate_for_user now id uid amount network db ≡ ok r
    → Any (λ y. y ≡ r.0) db.deposit_addresses
      × Fits amount network r.0
      × All
          (λ b.
            Fits amount network b
            → Precedes (Uses now uid (fitting amount network db.deposit_addresses) db) r.0 b)
          db.deposit_addresses
unfolding allocate_for_user
allocate_for_user-picks now id uid amount network db r h =
    let table = db.deposit_addresses in
    let candidate = is_candidate amount network in
    let fits = fitting amount network table in
    let used = is_used now uid fits db in
    elim (Option-cases (first_sorted used fits)) [
      | inl none_left ↦ absurd (ground arith)
      | inr (a, picked) ↦
          let e : r.0 ≡ a = ground arith in
          let least = first_sorted-least used fits a picked in
          let isin : Any (λ y. y ≡ a) table =
            first_sorted-All used (λ x. Any (λ y. y ≡ x) table) fits a
              (All-filter_kept (λ x. Any (λ y. y ≡ x) table) (has_room amount)
                (filter candidate table)
                (All-filter_kept (λ x. Any (λ y. y ≡ x) table) candidate table (All-in table)))
              picked in
          let asked : candidate a ≡ true =
            first_sorted-All used (λ x. candidate x ≡ true) fits a
              (All-filter_kept (λ x. candidate x ≡ true) (has_room amount) (filter candidate table)
                (All-filter candidate table))
              picked in
          let room : has_room amount a ≡ true =
            first_sorted-All used (λ x. has_room amount x ≡ true) fits a
              (All-filter (has_room amount) (filter candidate table)) picked in
          let order : All
              (λ b. candidate b ≡ true → has_room amount b ≡ true → goes_before used b a ≡ false)
              table =
            All-filtered (λ b. has_room amount b ≡ true → goes_before used b a ≡ false) candidate
              table
              (All-filtered (λ b. goes_before used b a ≡ false) (has_room amount)
                (filter candidate table) least) in
          rw e (
            isin,
            (Fits-iff amount network a).0 (asked, room),
            All-map table
                (λ b first f.
                  let c = (Fits-iff amount network b).1 f in
                  goes_before-Precedes now uid fits db a b (first c.0 c.1))
                order,
          )
    ]
