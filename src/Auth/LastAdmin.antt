-- ===== src/Auth/LastAdmin.antt =====
-- The last administrator who can log in.
use crypto_sim_backend.Common.{
  ℕ, ◌+◌, ◌≤◌, ◌≡◌, true, false, Bool, leb, count, List, [], ◌∷◌, some, ok, Option-cases,
  Result-cases, inl, inr, arith,
}
use crypto_sim_backend.Common.Table.{find_unique, update, delete, bit, count-update}
use crypto_sim_backend.Auth.Libraries.{Bcrypt}
use crypto_sim_backend.Auth.Admins.{
  Admin, admin_key, AdminError, UpdateAdminDto, delete_admin, update_admin, updated_admin, filled,
  check_new, has_username, has_admin_email,
}

abbrev pub active_count : List Admin → ℕ
active_count admins = count (λ a. a.is_active) admins

count-delete :
    (p : Admin → Bool) (k : ℕ) (xs : List Admin) (x : Admin)
    → find_unique admin_key k xs ≡ some x
    → count p (delete admin_key k xs) + bit (p x) ≡ count p xs
count-delete p k [] x h = cc
count-delete p k (y ∷ xs) x h = ground (arith, count-delete p k xs x)

-- A deletion that goes through leaves at least one administrator who is active.
pub delete_admin-active :
    (id : ℕ) (admins admins' : List Admin)
    → delete_admin id admins ≡ ok admins'
    → 1 ≤ active_count admins'
unfolding delete_admin
delete_admin-active id admins admins' h = elim (Option-cases (find_unique admin_key id admins)) [
  | inl missing ↦ absurd (ground arith)
  | inr (a, found) ↦
      let e : admins' ≡ delete admin_key id admins = ground arith in
      let more : leb (active_count admins) 1 ≡ false = ground arith in
      rw e (ground (arith, count-delete (λ x. x.is_active) id admins a))
]

-- An update has no such guard: if the only active administrator is updated to be inactive, and the
-- update goes through, none is active afterwards.
pub update_admin-none_active :
    (b : Bcrypt) (salt id : ℕ) (dto : UpdateAdminDto) (admins admins' : List Admin) (a : Admin)
    → find_unique admin_key id admins ≡ some a
    → a.is_active ≡ true
    → active_count admins ≡ 1
    → dto.is_active ≡ some false
    → update_admin b salt id dto admins ≡ ok admins'
    → active_count admins' ≡ 0
unfolding update_admin
update_admin-none_active b salt id dto admins admins' a found active single off h =
    elim (Result-cases
      (check_new (filled dto.username) a.username has_username AdminError.username_taken admins)) [
        | inr (e, refused) ↦ absurd (ground arith)
        | inl (u, passed) ↦
            elim (Result-cases (
              check_new (filled dto.email) a.email has_admin_email AdminError.email_taken admins)) [
                | inr (e, refused) ↦ absurd (ground arith)
                | inl (u', passed') ↦
                    let e : admins' ≡ update admin_key id (updated_admin b salt dto) admins =
                      ground arith in
                    rw e (
                      ground (
                        arith,
                        count-update admin_key (λ x. x.is_active) id (updated_admin b salt dto)
                            admins a,
                      ))
              ]
      ]
