-- ===== src/Auth/Admins.antt =====
-- `AdminAuthService`: login of administrators and their accounts.
use crypto_sim_backend.Common.{
  ℕ, leb, if◌then◌else◌, Bool, true, false, not, ◌&&◌, ◌||◌, List, [], ◌∷◌, any, filter, find?,
  count, Option, none, some, get_or, Text, text, trim, text_eq, Result, ok, ◌>>=◌, ◌>>◌, throw_if,
  or_throw,
}
use crypto_sim_backend.Common.Table.{find_unique, update, delete}
use crypto_sim_backend.Common.Pages.{passes, page_rows, sort_by}
use crypto_sim_backend.Users.Service.{same_flag}
use crypto_sim_backend.Auth.Libraries.{Bcrypt, Jwt}
use crypto_sim_backend.Auth.Service.{AuthTokens, or_null}

pub record Admin : Type 0 where
  pub id : ℕ
  pub username : Text
  pub email : Text
  pub display_name : Text
  pub password_hash : Text
  pub refresh_token_hash : Option Text
  pub permissions : List Text
  pub is_active : Bool
  pub last_login_at : Option ℕ
  pub last_login_ip : Option Text
  pub remark : Option Text
  pub created_at : ℕ

abbrev pub admin_key : Admin → ℕ
admin_key a = a.id

pub data AdminError : Type 0 where
  bad_credentials account_disabled refresh_failed invalid_admin admin_not_found : AdminError
  username_taken email_taken last_admin : AdminError

abbrev pub has_username : Text → Admin → Bool
has_username name a = text_eq a.username name

abbrev pub has_admin_email : Text → Admin → Bool
has_admin_email email a = text_eq a.email email

-- `x || null` and the like: an empty text counts as none.
abbrev pub nonempty : Text → Option Text
nonempty [] = none
nonempty (c ∷ s) = some (c ∷ s)

abbrev pub filled : Option Text → Option Text
filled none = none
filled (some s) = nonempty s

unfoldable pub logout : ℕ → List Admin → Result AdminError (List Admin)
logout id admins = do
  a ← or_throw (find_unique admin_key id admins) AdminError.admin_not_found
  ok (update admin_key id (λ x. record x { refresh_token_hash = none }) admins)

abbrev pub if_active : Admin → Option Admin
if_active a = if a.is_active then some a else none

abbrev pub find_active : ℕ → List Admin → Option Admin
find_active id admins = elim (find_unique admin_key id admins) [
  | none ↦ none
  | some a ↦ if_active a
]

unfoldable pub validate_admin : ℕ → List Admin → Result AdminError Admin
validate_admin id admins = or_throw (find_active id admins) AdminError.invalid_admin

pub record QueryAdminsDto : Type 0 where
  pub page : Option ℕ
  pub page_size : Option ℕ
  pub search : Option Text
  pub is_active : Option Bool

abbrev pub keyword : Option Text → Option Text
keyword none = none
keyword (some s) = nonempty (trim s)

abbrev pub is_queried : (Text → Text → Bool) → QueryAdminsDto → Admin → Bool
is_queried contains q a =
    passes (keyword q.search)
      (λ s. contains s a.username || contains s a.email || contains s a.display_name)
    && passes q.is_active (λ b. same_flag a.is_active b)

-- The rows of the page, and how many rows there are. `contains` is the database's search without
-- regard to case, `before` the order that `sortBy` and `sortOrder` name.
unfoldable pub find_all_admins :
    (Text → Text → Bool) → (Admin → Admin → Bool) → QueryAdminsDto → List Admin → List Admin × ℕ
find_all_admins contains before q admins = (
  page_rows (get_or q.page 1) (get_or q.page_size 10)
      (sort_by before (filter (is_queried contains q) admins)),
  count (is_queried contains q) admins,
)

unfoldable pub get_admin_by_id : ℕ → List Admin → Result AdminError Admin
get_admin_by_id id admins = or_throw (find_unique admin_key id admins) AdminError.admin_not_found

pub record CreateAdminDto : Type 0 where
  pub username : Text
  pub email : Text
  pub password : Text
  pub display_name : Option Text
  pub permissions : Option (List Text)
  pub remark : Option Text

pub record UpdateAdminDto : Type 0 where
  pub username : Option Text
  pub email : Option Text
  pub password : Option Text
  pub display_name : Option Text
  pub is_active : Option Bool
  pub permissions : Option (List Text)
  pub remark : Option Text

-- A text that is given and new to the row must be new to the table.
abbrev pub check_new :
    Option Text
    → Text
    → (Text → Admin → Bool)
    → AdminError
    → List Admin
    → Result AdminError (Unit {0})
check_new none old has e admins = ok tt
check_new (some new) old has e admins = throw_if (not (text_eq new old) && any (has new) admins) e

-- `remark !== undefined`, then `remark.trim() || null`
abbrev pub new_remark : Option Text → Option Text → Option Text
new_remark none old = old
new_remark (some s) old = nonempty (trim s)

-- The last administrator who can log in is not deleted.
unfoldable pub delete_admin : ℕ → List Admin → Result AdminError (List Admin)
delete_admin id admins = do
  a ← or_throw (find_unique admin_key id admins) AdminError.admin_not_found
  throw_if (leb (count (λ x. x.is_active) admins) 1) AdminError.last_admin
  ok (delete admin_key id admins)

module _ (b : Bcrypt) where
  open b use {hash, compare}

  unfoldable pub create_admin :
      ℕ → ℕ → ℕ → CreateAdminDto → List Admin → Result AdminError (Admin × List Admin)
  create_admin now salt id dto admins = do
    throw_if (any (has_username dto.username) admins) AdminError.username_taken
    throw_if (any (has_admin_email dto.email) admins) AdminError.email_taken
    let a : Admin = record {
      id = id;
      username = dto.username;
      email = dto.email;
      display_name = get_or (filled dto.display_name) dto.username;
      password_hash = hash salt dto.password;
      refresh_token_hash = none;
      permissions = get_or dto.permissions (text "*" ∷ []);
      is_active = true;
      last_login_at = none;
      last_login_ip = none;
      remark = new_remark dto.remark none;
      created_at = now;
    }
    ok (a, a ∷ admins)

  abbrev pub new_hash : ℕ → Option Text → Text → Text
  new_hash salt none old = old
  new_hash salt (some password) old = hash salt password

  abbrev pub updated_admin : ℕ → UpdateAdminDto → Admin → Admin
  updated_admin salt dto a = record a {
    username = get_or (filled dto.username) a.username;
    email = get_or (filled dto.email) a.email;
    password_hash = new_hash salt (filled dto.password) a.password_hash;
    display_name = get_or (filled dto.display_name) a.display_name;
    is_active = get_or dto.is_active a.is_active;
    permissions = get_or dto.permissions a.permissions;
    remark = new_remark dto.remark a.remark;
  }

  unfoldable pub update_admin : ℕ → ℕ → UpdateAdminDto → List Admin → Result AdminError (List Admin)
  update_admin salt id dto admins = do
    a ← or_throw (find_unique admin_key id admins) AdminError.admin_not_found
    check_new (filled dto.username) a.username has_username AdminError.username_taken admins
    check_new (filled dto.email) a.email has_admin_email AdminError.email_taken admins
    ok (update admin_key id (updated_admin salt dto) admins)

  -- Both tokens of an administrator carry the same claims and differ in their secrets.
  module _ (j : Jwt) where
    open j use {sign_access, sign_refresh, verify_refresh}

    abbrev pub admin_tokens : ℕ → Admin → AuthTokens
    admin_tokens now a = record {
      access_token = sign_access now a.id a.email (a.username ∷ []);
      refresh_token = sign_refresh now a.id a.email;
    }

    abbrev pub set_refresh : ℕ → AuthTokens → Admin → Admin
    set_refresh salt tokens a = record a {
      refresh_token_hash = some (hash salt tokens.refresh_token);
    }

    abbrev pub note_login : ℕ → Option Text → Admin → Admin
    note_login now ip a = record a { last_login_at = some now; last_login_ip = or_null ip }

    unfoldable pub login :
        ℕ → ℕ → Text → Text → Option Text → List Admin → Result AdminError (AuthTokens × List Admin)
    login now salt username password ip admins = do
      a ← or_throw (find? (has_username username) admins) AdminError.bad_credentials
      throw_if (not a.is_active) AdminError.account_disabled
      throw_if (not (compare password a.password_hash)) AdminError.bad_credentials
      let tokens = admin_tokens now a
      ok (tokens, update admin_key a.id (λ x. note_login now ip (set_refresh salt tokens x)) admins)

    abbrev pub matches : Text → Option Text → Bool
    matches token none = false
    matches token (some h) = compare token h

    unfoldable pub refresh_tokens :
        ℕ → ℕ → Text → List Admin → Result AdminError (AuthTokens × List Admin)
    refresh_tokens now salt token admins = do
      id ← or_throw (verify_refresh now token) AdminError.refresh_failed
      a ← or_throw (find_active id admins) AdminError.refresh_failed
      throw_if (not (matches token a.refresh_token_hash)) AdminError.refresh_failed
      let tokens = admin_tokens now a
      ok (tokens, update admin_key a.id (set_refresh salt tokens) admins)
