-- ===== src/Users/Distinct.antt =====
-- Identifiers and addresses of the users, each of one user only.
use crypto_sim_backend.Common.{
  ℕ, ◌≡◌, ◌∙◌, ap, sym, ◌⊎◌, refl, ◌==◌, Bool, false, List, [], ◌∷◌, any, Option, none, some,
  get_or, Text, text_eq, text_eq-eq, text_eq_sym, ok, Bool-cases, inl, inr, arith,
}
use crypto_sim_backend.Common.Table.{find_unique, update, delete}
use crypto_sim_backend.Database.{User, user_id}
use crypto_sim_backend.Users.Service.{has_email, check_new_email}

-- Nobody behind a row has its identifier or its address.
abbrev pub IsDistinct : List User → Type 0
IsDistinct [] = Unit
IsDistinct (u ∷ us) =
    (find_unique user_id u.id us ≡ none) × (any (has_email u.email) us ≡ false) × IsDistinct us

find-update-none :
    (j k : ℕ) (g : User → User) (us : List User)
    → ((u : User) → (g u).id ≡ u.id)
    → find_unique user_id j us ≡ none
    → find_unique user_id j (update user_id k g us) ≡ none
find-update-none j k g [] same h = refl
find-update-none j k g (u ∷ us) same h = ground (arith, same u, find-update-none j k g us same)

any-update :
    (p : User → Bool) (k : ℕ) (g : User → User) (us : List User)
    → any p us ≡ false
    → ((u : User) → find_unique user_id k us ≡ some u → p (g u) ≡ false)
    → any p (update user_id k g us) ≡ false
any-update p k g [] h new = refl
any-update p k g (u ∷ us) h new = elim (Bool-cases (u.id == k)) [
  | inl hit ↦ rw hit (ground (arith, new u))
  | inr miss ↦
      rw miss (ground (arith, any-update p k g us (ground arith) (λ x at. new x (rw miss at))))
]

head_fails : (p : User → Bool) (u : User) (us : List User) → any p (u ∷ us) ≡ false → p u ≡ false
head_fails p u us h = ground arith

any-found :
    (p : User → Bool) (k : ℕ) (us : List User) (u : User)
    → any p us ≡ false
    → find_unique user_id k us ≡ some u
    → p u ≡ false
any-found p k [] u h at = cc
any-found p k (x ∷ us) u h at = ground (arith, any-found p k us u)

-- A row that is written keeps its identifier, and its address is its own or new to the table.
pub update-IsDistinct :
    (k : ℕ) (g : User → User) (us : List User)
    → ((u : User) → (g u).id ≡ u.id)
    → ((u : User)
        → find_unique user_id k us ≡ some u
        → ((g u).email ≡ u.email) ⊎ (any (has_email (g u).email) us ≡ false))
    → IsDistinct us
    → IsDistinct (update user_id k g us)
update-IsDistinct k g [] same new d = tt
update-IsDistinct k g (u ∷ us) same new d = elim (Bool-cases (u.id == k)) [
  | inl hit ↦ rw hit (
    rw (same u) d.0,
    elim (new u (rw hit refl)) [ inl own ↦ rw own d.1 | inr free ↦ ground arith ],
    d.2,
  )
  | inr miss ↦ rw miss (
    find-update-none u.id k g us same d.0,
    any-update (has_email u.email) k g us d.1 (λ x at. elim (new x (rw (miss) at)) [
      | inl own ↦ rw own (any-found (has_email u.email) k us x d.1 at)
      | inr free ↦ text_eq_sym (g x).email u.email ∙ head_fails (has_email (g x).email) u us free
    ]),
    update-IsDistinct k g us same
        (λ x at. elim (new x (rw (miss) at)) [ inl own ↦ inl own | inr free ↦ inr (ground arith) ])
        d.2,
  )
]

pub delete-IsDistinct : (k : ℕ) (us : List User) → IsDistinct us → IsDistinct (delete user_id k us)
delete-IsDistinct k [] d = tt
delete-IsDistinct k (u ∷ us) d = elim (Bool-cases (u.id == k)) [
  | inl hit ↦ rw hit d.2
  | inr miss ↦ rw miss (find-delete u.id us d.0, any-delete us d.1, delete-IsDistinct k us d.2)
]
  where
    find-delete :
        (j : ℕ) (xs : List User)
        → find_unique user_id j xs ≡ none
        → find_unique user_id j (delete user_id k xs) ≡ none
    find-delete j [] h = refl
    find-delete j (x ∷ xs) h = ground (arith, find-delete j xs)

    any-delete :
        (xs : List User)
        → any (has_email u.email) xs ≡ false
        → any (has_email u.email) (delete user_id k xs) ≡ false
    any-delete [] h = refl
    any-delete (x ∷ xs) h = ground (arith, any-delete xs)

-- A write that keeps identifier and address of the row.
pub keep-IsDistinct :
    (k : ℕ) (g : User → User) (us : List User)
    → ((u : User) → (g u).id ≡ u.id)
    → ((u : User) → (g u).email ≡ u.email)
    → IsDistinct us
    → IsDistinct (update user_id k g us)
keep-IsDistinct k g us same own d = update-IsDistinct k g us same (λ u at. inl (own u)) d

-- A write of an address that `check_new_email` let through for the row of the identifier.
pub readdress-IsDistinct :
    (k : ℕ) (email : Option Text) (g : User → User) (us : List User) (u : User)
    → find_unique user_id k us ≡ some u
    → check_new_email email u us ≡ ok tt
    → ((x : User) → (g x).id ≡ x.id)
    → ((x : User) → (g x).email ≡ get_or email x.email)
    → IsDistinct us
    → IsDistinct (update user_id k g us)
readdress-IsDistinct k none g us u found checked same own d = keep-IsDistinct k g us same own d
readdress-IsDistinct k (some email) g us u found checked same own d =
    update-IsDistinct k g us same
      (λ x at.
        let row : x ≡ u = ground arith in
        elim (Bool-cases (text_eq email u.email)) [
          | inl old ↦ inl (own x ∙ text_eq-eq email u.email old ∙ ap (λ y. y.email) (sym row))
          | inr new ↦ inr (rw (own x) (ground arith))
        ])
      d
