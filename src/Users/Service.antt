-- ===== src/Users/Service.antt =====
-- `UsersService`. What hashes passwords and what searches text in the database are parameters.
use crypto_sim_backend.Common.{
  ℕ, ℤ, pos, ◌+ℤ◌, ◌-ℤ◌, ltb_ℤ, ◌==◌, if◌then◌else◌, Bool, true, false, not, ◌&&◌, ◌||◌, List, [],
  ◌∷◌, map, filter, find?, any, Option, none, some, get_or, or_else, Text, text, text_eq, Result,
  ok, ◌>>=◌, ◌>>◌, throw_if, or_throw,
}
use crypto_sim_backend.Common.Table.{find_unique, update, delete}
use crypto_sim_backend.Common.Pages.{passes, Page, page_of, sort_by}
use crypto_sim_backend.Database.{
  Database, User, user_id, VerificationStatus, NumberValue, AccountType, balance_of, set_balance,
}
use crypto_sim_backend.Users.Ids.{UserError, generate_unique_user_id}

pub record CreateUserDto : Type 0 where
  pub email : Text
  pub password : Text
  pub display_name : Text
  pub phone_number : Text
  pub demo_balance : ℕ
  pub real_balance : ℕ
  pub verification_status : Text
  pub avatar : Option Text
  pub id_card_front : Option Text
  pub id_card_back : Option Text

abbrev pub has_email : Text → User → Bool
has_email email u = text_eq u.email email

abbrev pub find_by_email : Text → List User → Option User
find_by_email email users = find? (has_email email) users

-- `supportedVerificationStatuses.includes(status)`, and the value of the enumeration.
abbrev pub parse_verification_status : Text → Option VerificationStatus
parse_verification_status s =
    if text_eq s (text "PENDING")
    then some VerificationStatus.pending
    else (if text_eq s (text "IN_REVIEW")
        then some VerificationStatus.in_review
        else (if text_eq s (text "VERIFIED")
            then some VerificationStatus.verified
            else (if text_eq s (text "REJECTED") then some VerificationStatus.rejected else none)))

-- A new row with the defaults of its columns: 10000 units in the demo account.
abbrev pub new_user : ℕ → ℕ → Text → Text → Text → User
new_user now id email name hash = record {
  id = id;
  email = email;
  display_name = name;
  password_hash = hash;
  refresh_token_hash = none;
  roles = text "trader" ∷ [];
  is_active = true;
  last_login_at = none;
  last_login_ip = none;
  avatar = none;
  phone_number = none;
  id_card_front = none;
  id_card_back = none;
  passport_photo = none;
  document_type = none;
  is_custom_member = false;
  created_by = none;
  admin_remark = none;
  created_at = now;
  demo_balance = pos 1000000000000;
  real_balance = pos 0;
  total_profit_loss = pos 0;
  total_trades = 0;
  win_rate = 0;
  verification_status = VerificationStatus.pending;
  trade_durations = none;
}

abbrev pub insert_user : User → Database → Database
insert_user u db = record db { users = u ∷ db.users }

unfoldable pub create_custom_user :
    (Text → Text) → ℕ → (ℕ → ℕ) → CreateUserDto → ℕ → Database → Result UserError (User × Database)
create_custom_user hash now draws dto created_by db = do
  throw_if (any (has_email dto.email) db.users) UserError.email_already_exists
  status ←
      or_throw (parse_verification_status dto.verification_status)
        UserError.invalid_verification_status
  id ← generate_unique_user_id draws db.users
  let u : User = record (new_user now id dto.email dto.display_name (hash dto.password)) {
    phone_number = some dto.phone_number;
    avatar = dto.avatar;
    id_card_front = dto.id_card_front;
    id_card_back = dto.id_card_back;
    demo_balance = pos dto.demo_balance;
    real_balance = pos dto.real_balance;
    verification_status = status;
    is_custom_member = true;
    created_by = some created_by;
  }
  ok (u, insert_user u db)

pub record QueryUsersDto : Type 0 where
  pub page : ℕ
  pub page_size : ℕ
  pub search : Option Text
  pub role : Option Text
  pub verification_status : Option VerificationStatus
  pub is_active : Option Bool

abbrev pub same_verification : VerificationStatus → VerificationStatus → Bool
same_verification VerificationStatus.pending VerificationStatus.pending = true
same_verification VerificationStatus.in_review VerificationStatus.in_review = true
same_verification VerificationStatus.verified VerificationStatus.verified = true
same_verification VerificationStatus.rejected VerificationStatus.rejected = true
same_verification _ _ = false

abbrev pub same_flag : Bool → Bool → Bool
same_flag true b = b
same_flag false b = not b

abbrev pub holds_text : (Text → Bool) → Option Text → Bool
holds_text test none = false
holds_text test (some s) = test s

-- `contains` is the database's search in a text, without regard to case.
abbrev pub is_found : (Text → Text → Bool) → Text → User → Bool
is_found contains search u =
    contains search u.email
    || contains search u.display_name
    || holds_text (contains search) u.phone_number

abbrev pub is_queried : (Text → Text → Bool) → QueryUsersDto → User → Bool
is_queried contains q u =
    passes q.search (λ s. is_found contains s u)
    && passes q.role (λ r. any (text_eq r) u.roles)
    && passes q.verification_status (λ s. same_verification u.verification_status s)
    && passes q.is_active (λ b. same_flag u.is_active b)

-- `before` is the order that `sortBy` and `sortOrder` name.
unfoldable pub find_all :
    (Text → Text → Bool) → (User → User → Bool) → QueryUsersDto → Database → Page User
find_all contains before q db =
    page_of q.page q.page_size (sort_by before (filter (is_queried contains q) db.users))

unfoldable pub find_one : ℕ → Database → Result UserError User
find_one id db = or_throw (find_unique user_id id db.users) UserError.user_not_found

pub record UpdateUserDto : Type 0 where
  pub email : Option Text
  pub display_name : Option Text
  pub phone_number : Option Text
  pub avatar : Option Text
  pub is_active : Option Bool
  pub verification_status : Option VerificationStatus
  pub admin_remark : Option Text

abbrev pub updated_user : UpdateUserDto → User → User
updated_user dto u = record u {
  email = get_or dto.email u.email;
  display_name = get_or dto.display_name u.display_name;
  phone_number = or_else dto.phone_number u.phone_number;
  avatar = or_else dto.avatar u.avatar;
  is_active = get_or dto.is_active u.is_active;
  verification_status = get_or dto.verification_status u.verification_status;
  admin_remark = or_else dto.admin_remark u.admin_remark;
}

abbrev pub write_user : ℕ → (User → User) → Database → Database
write_user id g db = record db { users = update user_id id g db.users }

-- An address that is new to the user must be new to the table.
abbrev pub check_new_email : Option Text → User → List User → Result UserError (Unit {0})
check_new_email none u users = ok tt
check_new_email (some email) u users =
    throw_if (not (text_eq email u.email) && any (has_email email) users) UserError.email_in_use

unfoldable pub update_user : ℕ → UpdateUserDto → Database → Result UserError Database
update_user id dto db = do
  u ← or_throw (find_unique user_id id db.users) UserError.user_not_found
  check_new_email dto.email u db.users
  ok (write_user id (updated_user dto) db)

abbrev pub change_user : ℕ → (User → User) → Database → Result UserError Database
change_user id g db = do
  u ← or_throw (find_unique user_id id db.users) UserError.user_not_found
  ok (write_user id g db)

unfoldable pub activate : ℕ → Database → Result UserError Database
activate id db = change_user id (λ u. record u { is_active = true }) db

unfoldable pub deactivate : ℕ → Database → Result UserError Database
deactivate id db = change_user id (λ u. record u { is_active = false }) db

unfoldable pub update_roles : ℕ → List Text → Database → Result UserError Database
update_roles id roles db = change_user id (λ u. record u { roles = roles }) db

pub data AdjustmentType : Type 0 where
  add subtract set : AdjustmentType

-- The check of the DTO lets no negative amount through.
abbrev pub adjusted : AdjustmentType → ℕ → ℤ → Result UserError ℤ
adjusted AdjustmentType.add amount current = ok (current +ℤ pos amount)
adjusted AdjustmentType.subtract amount current = do
  throw_if (ltb_ℤ (current -ℤ pos amount) (pos 0)) UserError.negative_balance
  ok (current -ℤ pos amount)
adjusted AdjustmentType.set amount current = ok (pos amount)

unfoldable pub adjust_balance :
    ℕ → AccountType → AdjustmentType → ℕ → Database → Result UserError Database
adjust_balance id account type amount db = do
  u ← or_throw (find_unique user_id id db.users) UserError.user_not_found
  balance ← adjusted type amount (balance_of account u)
  ok (write_user id (set_balance account balance) db)

-- The rows that belong to a deleted user go with it.
abbrev pub delete_user : ℕ → Database → Database
delete_user id db = record db {
  users = delete user_id id db.users;
  transaction_logs = filter (λ t. not (t.user_id == id)) db.transaction_logs;
  funding_records = filter (λ r. not (r.user_id == id)) db.funding_records;
  balance_ledgers = filter (λ l. not (l.user_id == id)) db.balance_ledgers;
}

unfoldable pub remove : ℕ → Database → Result UserError Database
remove id db = do
  u ← or_throw (find_unique user_id id db.users) UserError.user_not_found
  ok (delete_user id db)

unfoldable pub reset_password : (Text → Text) → ℕ → Text → Database → Result UserError Database
reset_password hash id password db =
    change_user id (λ u. record u { password_hash = hash password }) db

unfoldable pub update_trade_durations : ℕ → List ℕ → Database → Result UserError Database
update_trade_durations id durations db =
    change_user id
      (λ u. record u { trade_durations = some (map (λ n. NumberValue.whole (pos n)) durations) }) db
