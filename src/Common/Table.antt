-- ===== src/Common/Table.antt =====
-- Database tables: rows in order of creation, the newest first. A row is found and updated by a
-- unique key; `create` puts the new row in front.
use Prim.Native.Nat.{ℕ, ◌+◌}
use mathlib.Core.Path.{◌≡◌, refl, subst}
use mathlib.Core.Logic.{◌≢◌, inl, inr}
use mathlib.Core.Bool.{Bool, true, false}
use mathlib.Core.List.{List, [], ◌∷◌}
use mathlib.Core.Option.{Option, none, some}
use native.Mathlib.Omega.{arith}
use crypto_sim_backend.Common.Tests.{◌==◌, if◌then◌else◌, Bool-cases}
use crypto_sim_backend.Common.Int.{ℤ, ◌+ℤ◌, int_laws}
use crypto_sim_backend.Common.Lists.{count, sum, All}

-- `updateMany`: every row that passes the test.
abbrev pub update_many {ℓ} : {A : Type ℓ} → (A → Bool) → (A → A) → List A → List A
update_many p g [] = []
update_many p g (x ∷ xs) = (if p x then g x else x) ∷ update_many p g xs

-- 0 or 1, for counts.
abbrev pub bit : Bool → ℕ
bit true = 1
bit false = 0

module _ {ℓ} {A : Type ℓ} (key : A → ℕ) where
  abbrev pub find_unique : ℕ → List A → Option A
  find_unique k [] = none
  find_unique k (x ∷ xs) = if key x == k then some x else find_unique k xs

  abbrev pub update : ℕ → (A → A) → List A → List A
  update k g [] = []
  update k g (x ∷ xs) = if key x == k then g x ∷ xs else x ∷ update k g xs

  abbrev pub delete : ℕ → List A → List A
  delete k [] = []
  delete k (x ∷ xs) = if key x == k then xs else x ∷ delete k xs

  abbrev pub contains : ℕ → List A → Bool
  contains k [] = false
  contains k (x ∷ xs) = if key x == k then true else contains k xs

  pub contains-update :
      (j k : ℕ) (g : A → A) (xs : List A)
      → ((x : A) → key (g x) ≡ key x)
      → contains j (update k g xs) ≡ contains j xs
  contains-update j k g [] same = refl
  contains-update j k g (y ∷ xs) same = ground (arith, contains-update j k g xs same, same y)

  pub find_of_contains :
      (k : ℕ) (xs : List A) → contains k xs ≡ true → (x : A) × (find_unique k xs ≡ some x)
  find_of_contains k [] h = cc
  find_of_contains k (y ∷ xs) h = elim (Bool-cases (key y == k)) [
    | inl hit ↦ (y, rw hit)
    | inr miss ↦ rw miss (find_of_contains k xs (rw miss at h))
  ]

  pub contains_of_find :
      (k : ℕ) (xs : List A) (x : A) → find_unique k xs ≡ some x → contains k xs ≡ true
  contains_of_find k [] x h = cc
  contains_of_find k (y ∷ xs) x h = ground (arith, contains_of_find k xs x)

  pub key_of_found : (k : ℕ) (xs : List A) (x : A) → find_unique k xs ≡ some x → key x ≡ k
  key_of_found k [] x h = cc
  key_of_found k (y ∷ xs) x h = ground (arith, key_of_found k xs x)

  pub find-update_self :
      (k : ℕ) (g : A → A) (xs : List A) (x : A)
      → find_unique k xs ≡ some x
      → key (g x) ≡ k
      → find_unique k (update k g xs) ≡ some (g x)
  find-update_self k g [] x h e = cc
  find-update_self k g (y ∷ xs) x h e = elim (Bool-cases (key y == k)) [
    | inl hit ↦ ground arith
    | inr miss ↦ ground (arith, find-update_self k g xs x)
  ]

  pub find-update_ne :
      (j k : ℕ) (g : A → A) (xs : List A)
      → j ≢ k
      → ((x : A) → key (g x) ≡ key x)
      → find_unique j (update k g xs) ≡ find_unique j xs
  find-update_ne j k g [] ne same = refl
  find-update_ne j k g (y ∷ xs) ne same = ground (arith, find-update_ne j k g xs ne same, same y)

  pub find-update_row_ne :
      (j k : ℕ) (row : A) (xs : List A)
      → j ≢ k
      → key row ≡ k
      → find_unique j (update k (λ _. row) xs) ≡ find_unique j xs
  find-update_row_ne j k row [] ne e = refl
  find-update_row_ne j k row (y ∷ xs) ne e = ground (arith, find-update_row_ne j k row xs ne e)

  pub update_missing :
      (k : ℕ) (g : A → A) (xs : List A) → find_unique k xs ≡ none → update k g xs ≡ xs
  update_missing k g [] h = refl
  update_missing k g (y ∷ xs) h = ground (arith, update_missing k g xs)

  pub update_found :
      (k : ℕ) (g : A → A) (xs : List A) (x : A)
      → find_unique k xs ≡ some x
      → update k g xs ≡ update k (λ _. g x) xs
  update_found k g [] x h = refl
  update_found k g (y ∷ xs) x h = ground (arith, update_found k g xs x)

  pub update-update :
      (k : ℕ) (f g : A → A) (xs : List A)
      → ((x : A) → key (f x) ≡ key x)
      → update k g (update k f xs) ≡ update k (λ x. g (f x)) xs
  update-update k f g [] same = refl
  update-update k f g (y ∷ xs) same = ground (arith, update-update k f g xs same, same y)

  pub update_same : (k : ℕ) (xs : List A) → update k (λ x. x) xs ≡ xs
  update_same k [] = refl
  update_same k (y ∷ xs) = ground (arith, update_same k xs)

  pub update_twice :
      (k : ℕ) (a b : A) (xs : List A)
      → key a ≡ k
      → update k (λ _. b) (update k (λ _. a) xs) ≡ update k (λ _. b) xs
  update_twice k a b [] e = refl
  update_twice k a b (y ∷ xs) e = ground (arith, update_twice k a b xs e)

  pub sum-update :
      (f : A → ℤ) (k : ℕ) (g : A → A) (xs : List A) (x : A)
      → find_unique k xs ≡ some x
      → sum f (update k g xs) +ℤ f x ≡ sum f xs +ℤ f (g x)
  sum-update f k g [] x h = cc
  sum-update f k g (y ∷ xs) x h = elim (Bool-cases (key y == k)) [
    | inl hit ↦ grind int_laws
    | inr miss ↦ grind (int_laws, sum-update f k g xs x)
  ]

  pub count-update :
      (p : A → Bool) (k : ℕ) (g : A → A) (xs : List A) (x : A)
      → find_unique k xs ≡ some x
      → count p (update k g xs) + bit (p x) ≡ count p xs + bit (p (g x))
  count-update p k g [] x h = cc
  count-update p k g (y ∷ xs) x h = ground (arith, count-update p k g xs x)

  pub All-found {κ} :
      (P : A → Type κ) (k : ℕ) (xs : List A) (x : A) → All P xs → find_unique k xs ≡ some x → P x
  All-found P k [] x a h = cc
  All-found P k (y ∷ xs) x a h = elim (Bool-cases (key y == k)) [
    | inl hit ↦ subst P (ground arith) a.0
    | inr miss ↦ All-found P k xs x a.1 (ground arith)
  ]

  pub All-update {κ} :
      (P : A → Type κ) (k : ℕ) (g : A → A) (xs : List A)
      → All P xs
      → ((x : A) → find_unique k xs ≡ some x → P x → P (g x))
      → All P (update k g xs)
  All-update P k g [] a h = a
  All-update P k g (y ∷ xs) a h = elim (Bool-cases (key y == k)) [
    | inl hit ↦ rw hit (h y (rw hit refl) a.0, a.1)
    | inr miss ↦ rw miss (a.0, All-update P k g xs a.1 (λ x e. h x (rw miss e)))
  ]
