-- ===== src/Deposits/Fitting.antt =====
-- What an address must be for `allocateForUser` to give it to a user, told without the code's tests.
use mathlib.Core.Path.{subst}
use crypto_sim_backend.Common.{
  ℕ, pos, ◌≤◌, ◌<◌, ◌≤ℤ◌, ◌-ℤ◌, ◌↔◌, ◌⊎◌, Option, none, take, leb, any, text_eq, text_eq-eq,
  text_eq_refl, ◌==◌, ◌&&◌, sym, ap, ◌∙◌, ◌≡◌, refl, Bool, true, false, List, [], ◌∷◌, some, filter,
  Bool-cases, Option-cases, inl, inr, arith,
}
use crypto_sim_backend.Database.{
  Database, DepositAddress, DepositAllocation, FundingRecord, is_risky, same_network,
  FundingNetwork,
}
use crypto_sim_backend.Deposits.Allocate.{
  below_max, is_recent_of, is_held, goes_to, is_candidate, has_room, is_used,
}

-- What the query asks of an address, and its room.
pub record Fits (amount : ℕ) (network : FundingNetwork) (a : DepositAddress) : Type 0 where
  pub same : a.network ≡ network
  pub enabled : a.enabled ≡ true
  pub safe : is_risky a.risk_status ≡ false
  pub above : a.min_amount ≤ amount
  pub below : (high : ℕ) → a.max_amount ≡ some high → amount ≤ high
  pub room :
      (c : ℕ) → a.capacity ≡ some c → pos amount ≤ℤ ((pos c -ℤ a.used_amount) -ℤ a.pending_amount)

abbrev pub Any {ℓ} : {A : Type ℓ} → (A → Type 0) → List A → Type 0
Any P [] = ⊥
Any P (x ∷ xs) = P x ⊎ Any P xs

-- A reservation of the user at the address that is neither consumed nor past its time.
abbrev pub Holds : ℕ → ℕ → DepositAddress → DepositAllocation → Type 0
Holds now uid a l =
    (l.user_id ≡ uid) × (l.consumed ≡ false) × (now ≤ l.expires_at) × (l.address_id ≡ a.id)

-- The user has used the address: one of the 50 latest deposits to the fitting addresses went to it, or
-- there is a live reservation.
abbrev pub Uses : ℕ → ℕ → List DepositAddress → Database → DepositAddress → Type 0
Uses now uid fits db a =
    Any (λ r. r.to_address ≡ some a.address)
      (take 50 (filter (is_recent_of uid fits) db.funding_records))
    ⊎ Any (λ c. (c.address ≡ a.address) × Any (Holds now uid c) db.deposit_allocations) fits

-- Sorted by the number for the order and then by age.
abbrev pub IsNotAfter : DepositAddress → DepositAddress → Type 0
IsNotAfter a b =
    (a.sort_order < b.sort_order) ⊎ ((a.sort_order ≡ b.sort_order) × (a.created_at ≤ b.created_at))

same_network-eq : (m n : FundingNetwork) → same_network m n ≡ true → m ≡ n
same_network-eq FundingNetwork.trc20 FundingNetwork.trc20 h = refl
same_network-eq FundingNetwork.erc20 FundingNetwork.erc20 h = refl
same_network-eq FundingNetwork.btc FundingNetwork.btc h = refl
same_network-eq FundingNetwork.trc20 FundingNetwork.erc20 h = absurd (ground arith)
same_network-eq FundingNetwork.trc20 FundingNetwork.btc h = absurd (ground arith)
same_network-eq FundingNetwork.erc20 FundingNetwork.trc20 h = absurd (ground arith)
same_network-eq FundingNetwork.erc20 FundingNetwork.btc h = absurd (ground arith)
same_network-eq FundingNetwork.btc FundingNetwork.trc20 h = absurd (ground arith)
same_network-eq FundingNetwork.btc FundingNetwork.erc20 h = absurd (ground arith)

same_network_refl : (n : FundingNetwork) → same_network n n ≡ true
same_network_refl FundingNetwork.trc20 = refl
same_network_refl FundingNetwork.erc20 = refl
same_network_refl FundingNetwork.btc = refl

below_max_iff :
    (amount : ℕ) (m : Option ℕ)
    → (below_max amount m ≡ true) ↔ ((high : ℕ) → m ≡ some high → amount ≤ high)
below_max_iff amount none = ((λ h high e. absurd (ground arith)), (λ f. refl))
below_max_iff amount (some top) =
    ((λ h high e. ground arith), (λ f. let b = f top refl in ground (arith, b)))

has_room_iff :
    (amount : ℕ) (a : DepositAddress)
    → (has_room amount a ≡ true) ↔ (
        (c : ℕ)
        → a.capacity ≡ some c
        → pos amount ≤ℤ ((pos c -ℤ a.used_amount) -ℤ a.pending_amount))
has_room_iff amount a = elim (Option-cases a.capacity) [
  | inl missing ↦ ((λ h c e. absurd (ground arith)), (λ f. rw missing refl))
  | inr (c, found) ↦ (
    (λ h c' e.
        let same : c' ≡ c = cc in
        subst (λ k. pos amount ≤ℤ ((pos k -ℤ a.used_amount) -ℤ a.pending_amount)) (sym same)
          (let h' = rw found at h in ground arith)),
    (λ f. let r = f c found in rw found (ground arith)),
  )
]

pub Fits-iff :
    (amount : ℕ) (network : FundingNetwork) (a : DepositAddress)
    → ((is_candidate amount network a ≡ true) × (has_room amount a ≡ true)) ↔ Fits amount network a
unfolding is_candidate
Fits-iff amount network a = (there, back)
  where
    there :
        (is_candidate amount network a ≡ true) × (has_room amount a ≡ true) → Fits amount network a
    there (h, r) = record {
      same = same_network-eq a.network network (ground arith);
      enabled = ground arith;
      safe = ground arith;
      above = ground arith;
      below = (below_max_iff amount a.max_amount).0 (ground arith);
      room = (has_room_iff amount a).0 r;
    }

    back :
        Fits amount network a → (is_candidate amount network a ≡ true) × (has_room amount a ≡ true)
    back f =
        let n : same_network a.network network ≡ true =
          subst (λ m. same_network a.network m ≡ true) f.same (same_network_refl a.network) in
        let e : a.enabled ≡ true = f.enabled in
        let s : is_risky a.risk_status ≡ false = f.safe in
        let l : leb a.min_amount amount ≡ true = let x = f.above in ground arith in
        let m : below_max amount a.max_amount ≡ true =
          (below_max_iff amount a.max_amount).1 f.below in
        (rw (n, e, s, l, m) refl, (has_room_iff amount a).1 f.room)

any_iff {ℓ} :
    {A : Type ℓ} {p : A → Bool} {P : A → Type 0}
    → ((x : A) → (p x ≡ true) ↔ P x)
    → (xs : List A) → (any p xs ≡ true) ↔ Any P xs
any_iff h [] = ((λ e. absurd (ground arith)), (λ x. absurd x))
any_iff {p = p} {P = P} h (x ∷ xs) =
    let ih = any_iff h xs in
    (
      (λ e. elim (Bool-cases (p x)) [
        | inl hit ↦ inl ((h x).0 hit)
        | inr miss ↦ inr (ih.0 (rw miss at e))
      ]),
      (λ (s : P x ⊎ Any P xs). elim s [
        | inl here ↦ rw ((h x).1 here) refl
        | inr later ↦ let rest = ih.1 later in ground arith
      ]),
    )

goes_to_iff :
    (a : DepositAddress) (r : FundingRecord)
    → (goes_to a r ≡ true) ↔ (r.to_address ≡ some a.address)
goes_to_iff a r = elim (Option-cases r.to_address) [
  | inl missing ↦
      ((λ h. absurd (ground (arith, h, missing))), (λ e. absurd (ground (arith, e, missing))))
  | inr (s, found) ↦ (
    (λ h. found ∙ ap some (text_eq-eq s a.address (rw found at h))),
    (λ e. rw e (text_eq_refl a.address)),
  )
]

Holds-iff :
    (now uid : ℕ) (a : DepositAddress) (l : DepositAllocation)
    → (((l.user_id == uid) && is_held now l && (l.address_id == a.id)) ≡ true) ↔ Holds now uid a l
Holds-iff now uid a l = (
  (λ h. (ground arith, ground arith, ground arith, ground arith)),
  (λ x. let e = x.0 in let c = x.1 in let t = x.2 in let d = x.3 in ground arith),
)

-- The search in the user's history finds an address where the user has used it.
pub is_used_iff :
    (now uid : ℕ) (fits : List DepositAddress) (db : Database) (a : DepositAddress)
    → (is_used now uid fits db a ≡ true) ↔ Uses now uid fits db a
unfolding is_used
is_used_iff now uid fits db a = (there, back)
  where
    recent : List FundingRecord
    recent = take 50 (filter (is_recent_of uid fits) db.funding_records)

    at :
        (c : DepositAddress)
        → ((text_eq c.address a.address
              && any
                  (λ l. (l.user_id == uid) && is_held now l && (l.address_id == c.id))
                  db.deposit_allocations)
            ≡ true)
          ↔ ((c.address ≡ a.address) × Any (Holds now uid c) db.deposit_allocations)
    at c =
        let held = any_iff (Holds-iff now uid c) db.deposit_allocations in
        (
          (λ h. (text_eq-eq c.address a.address (ground arith), held.0 (ground arith))),
          (λ x.
              let m = held.1 x.1 in
              let e : text_eq c.address a.address ≡ true =
                subst (λ s. text_eq c.address s ≡ true) x.0 (text_eq_refl c.address) in
              rw (e, m) refl),
        )

    there : is_used now uid fits db a ≡ true → Uses now uid fits db a
    there h = elim (Bool-cases (any (goes_to a) recent)) [
      | inl paid ↦ inl ((any_iff (goes_to_iff a) recent).0 paid)
      | inr unpaid ↦ inr ((any_iff at fits).0 (rw unpaid at h))
    ]

    back : Uses now uid fits db a → is_used now uid fits db a ≡ true
    back (inl paid) = rw ((any_iff (goes_to_iff a) recent).1 paid) refl
    back (inr held) = let h = (any_iff at fits).1 held in ground arith
