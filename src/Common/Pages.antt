-- ===== src/Common/Pages.antt =====
-- Lists in pages, as the services answer them (`skip`, `take`, `total`, `totalPages`), and the order
-- of a query's rows. Pages count from 1.
use Prim.Native.Nat.{ℕ, zero, suc, ◌+◌, ◌-◌, ◌*◌, ◌/◌, ◌≤◌, ◌<◌}
use mathlib.Core.Path.{◌≡◌, refl, ap, ◌∙◌}
use mathlib.Core.Bool.{Bool, true, false}
use mathlib.Core.Logic.{inl, inr}
use crypto_sim_backend.Common.Tests.{Bool-cases}
use mathlib.Core.List.{List, [], ◌∷◌, ◌++◌}
use mathlib.Core.Option.{Option, none, some}
use native.Mathlib.Omega.{arith}
use crypto_sim_backend.Common.Tests.{if◌then◌else◌, ltb}
use crypto_sim_backend.Common.Lists.{length, take, drop, count, All, All-map}

pub record Page {ℓ} (A : Type ℓ) : Type ℓ where
  pub rows : List A
  pub total : ℕ
  pub page : ℕ
  pub page_size : ℕ
  pub total_pages : ℕ

module _ {ℓ} {A : Type ℓ} where
  -- Rows that are equal in the order stay as they stand.
  abbrev pub insert_by : (A → A → Bool) → A → List A → List A
  insert_by before x [] = x ∷ []
  insert_by before x (y ∷ ys) =
      let rest = insert_by before x ys in if before y x then y ∷ rest else x ∷ y ∷ ys

  abbrev pub sort_by : (A → A → Bool) → List A → List A
  sort_by before [] = []
  sort_by before (x ∷ xs) = insert_by before x (sort_by before xs)

  -- `skip: (page - 1) * limit, take: limit`
  unfoldable pub page_rows : ℕ → ℕ → List A → List A
  page_rows page limit rows = take limit (drop ((page - 1) * limit) rows)

-- The tests of a `where` clause: a filter that is not given lets every row through.
abbrev pub passes {ℓ} : {A : Type ℓ} → Option A → (A → Bool) → Bool
passes none test = true
passes (some a) test = test a

-- Descending, with a time that is missing before all others.
abbrev pub is_later : Option ℕ → Option ℕ → Bool
is_later a none = false
is_later none (some u) = true
is_later (some t) (some u) = ltb u t

-- `Math.ceil(total / limit)`, for a limit above 0.
unfoldable pub total_pages : ℕ → ℕ → ℕ
total_pages total limit = (total + limit - 1) / limit

module _ {ℓ} {A : Type ℓ} where
  unfoldable pub page_of : ℕ → ℕ → List A → Page A
  page_of page limit rows = record {
    rows = page_rows page limit rows;
    total = length rows;
    page = page;
    page_size = limit;
    total_pages = total_pages (length rows) limit;
  }

  -- The rows of the first pages, one page after the other.
  unfoldable pub first_pages : ℕ → ℕ → List A → List A
  first_pages zero limit rows = []
  first_pages (suc n) limit rows = first_pages n limit rows ++ page_rows (suc n) limit rows

  pub count-sort_by :
      (p : A → Bool) (before : A → A → Bool) (xs : List A)
      → count p (sort_by before xs) ≡ count p xs
  count-sort_by p before [] = refl
  count-sort_by p before (x ∷ xs) =
      count-insert_by (sort_by before xs) ∙ ground (arith, count-sort_by p before xs)
    where
      count-insert_by : (ys : List A) → count p (insert_by before x ys) ≡ count p (x ∷ ys)
      count-insert_by [] = refl
      count-insert_by (y ∷ ys) = ground (arith, count-insert_by ys)

  -- No row stands before an earlier one in the order.
  abbrev pub IsOrdered : (A → A → Bool) → List A → Type 0
  IsOrdered before [] = Unit
  IsOrdered before (x ∷ xs) = All (λ y. before y x ≡ false) xs × IsOrdered before xs

  All-insert_by :
      (P : A → Type 0) (before : A → A → Bool) (x : A) (ys : List A)
      → P x
      → All P ys
      → All P (insert_by before x ys)
  All-insert_by P before x [] h k = (h, tt)
  All-insert_by P before x (y ∷ ys) h k = elim (Bool-cases (before y x)) [
    | inl lower ↦ rw lower (k.0, All-insert_by P before x ys h k.1)
    | inr higher ↦ rw higher (h, k)
  ]

  module _ (before : A → A → Bool) (asym : (a b : A) → before a b ≡ true → before b a ≡ false)
      (trans : (a b c : A) → before b a ≡ false → before c b ≡ false → before c a ≡ false) where
    insert_by-IsOrdered :
        (x : A) (ys : List A) → IsOrdered before ys → IsOrdered before (insert_by before x ys)
    insert_by-IsOrdered x [] h = (tt, tt)
    insert_by-IsOrdered x (y ∷ ys) h = elim (Bool-cases (before y x)) [
      | inl lower ↦ rw lower (
        All-insert_by (λ z. before z y ≡ false) before x ys (asym y x lower) h.0,
        insert_by-IsOrdered x ys h.1,
      )
      | inr higher ↦ rw higher ((higher, All-map ys (λ z k. trans x y z higher k) h.0), h)
    ]

    pub sort_by-IsOrdered : (xs : List A) → IsOrdered before (sort_by before xs)
    sort_by-IsOrdered [] = tt
    sort_by-IsOrdered (x ∷ xs) = insert_by-IsOrdered x (sort_by before xs) (sort_by-IsOrdered xs)

  take-add : (m n : ℕ) (xs : List A) → take (m + n) xs ≡ take m xs ++ take n (drop m xs)
  take-add m n [] = refl
  take-add zero n (x ∷ xs) = ground arith
  take-add (suc m) n (x ∷ xs) = ground (arith, take-add m n xs)

  take_all : (n : ℕ) (xs : List A) → length xs ≤ n → take n xs ≡ xs
  take_all n [] h = refl
  take_all zero (x ∷ xs) h = absurd (omega arith)
  take_all (suc n) (x ∷ xs) h = ap (λ l. x ∷ l) (take_all n xs (omega arith))

  first_pages_lem : (n limit : ℕ) (rows : List A) → first_pages n limit rows ≡ take (n * limit) rows
  unfolding first_pages page_rows
  first_pages_lem zero limit [] = refl
  first_pages_lem zero limit (x ∷ rows) = ground arith
  first_pages_lem (suc n) limit rows =
      let at : (suc n - 1) * limit ≡ n * limit = ap (λ (t : ℕ). t * limit) (omega arith) in
      let all : suc n * limit ≡ n * limit + limit = grind arith in
      rw (all, take-add (n * limit) limit rows, first_pages_lem n limit rows, at)

pub total_pages-covers : (total limit : ℕ) → 0 < limit → total ≤ total_pages total limit * limit
unfolding total_pages
total_pages-covers total limit h = grind arith

-- No page is empty: the rows of the pages before the last are fewer than all.
pub total_pages-needed :
    (total limit n : ℕ) → 0 < limit → n < total_pages total limit → n * limit < total
unfolding total_pages
total_pages-needed total limit n h k = grind arith

-- The pages up to the last, one after the other, are all the rows, in order.
pub first_pages_all {ℓ} :
    {A : Type ℓ} (limit : ℕ) (rows : List A)
    → 0 < limit
    → first_pages (total_pages (length rows) limit) limit rows ≡ rows
first_pages_all limit rows h =
    first_pages_lem (total_pages (length rows) limit) limit rows
    ∙ take_all (total_pages (length rows) limit * limit) rows
        (total_pages-covers (length rows) limit h)
