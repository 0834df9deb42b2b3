-- ===== src/Users/Operators.antt =====
-- `OperatorsService`: users that an administrator makes, and their transactions, which are rows alone:
-- no balance changes. Identifiers, order numbers and the hash of a password are arguments.
use crypto_sim_backend.Common.{
  ℕ, ℤ, pos, ◌==◌, if◌then◌else◌, Bool, true, false, not, ◌&&◌, List, ◌∷◌, any, filter, Option,
  none, some, get_or, or_else, Text, Result, ok, ◌>>=◌, ◌>>◌, throw_if, or_throw,
}
use crypto_sim_backend.Common.Table.{find_unique, update, delete}
use crypto_sim_backend.Common.Pages.{passes, Page, page_of, sort_by}
use crypto_sim_backend.Database.{
  Database, User, user_id, VerificationStatus, AccountType, TransactionLog, order_key, is_newer,
  TradeDirection, TransactionStatus, is_settled,
}
use crypto_sim_backend.Transactions.Create.{latest_active, session_id_of}
use crypto_sim_backend.Users.Ids.{UserError, generate_unique_user_id}
use crypto_sim_backend.Users.Service.{
  has_email, new_user, insert_user, write_user, delete_user, check_new_email, same_flag,
  same_verification, is_found,
}

pub record CreateOperatorDto : Type 0 where
  pub email : Text
  pub display_name : Text
  pub phone_number : Text
  pub avatar : Option Text
  pub demo_balance : Option ℤ
  pub real_balance : Option ℤ
  pub verification_status : Option VerificationStatus

unfoldable pub create :
    Text → ℕ → (ℕ → ℕ) → CreateOperatorDto → ℕ → Database → Result UserError (User × Database)
create password_hash now draws dto admin db = do
  throw_if (any (has_email dto.email) db.users) UserError.email_in_use
  id ← generate_unique_user_id draws db.users
  let u : User = record (new_user now id dto.email dto.display_name password_hash) {
    phone_number = some dto.phone_number;
    avatar = dto.avatar;
    demo_balance = get_or dto.demo_balance (pos 1000000000000);
    real_balance = get_or dto.real_balance (pos 0);
    verification_status = get_or dto.verification_status VerificationStatus.pending;
    is_custom_member = true;
    created_by = some admin;
  }
  ok (u, insert_user u db)

pub record QueryOperatorsDto : Type 0 where
  pub page : ℕ
  pub page_size : ℕ
  pub search : Option Text
  pub verification_status : Option VerificationStatus
  pub is_active : Option Bool

abbrev pub is_queried : (Text → Text → Bool) → QueryOperatorsDto → User → Bool
is_queried contains q u =
    u.is_custom_member
    && passes q.search (λ s. is_found contains s u)
    && passes q.verification_status (λ s. same_verification u.verification_status s)
    && passes q.is_active (λ b. same_flag u.is_active b)

-- `before` is the order that `sortBy` and `sortOrder` name.
unfoldable pub find_all :
    (Text → Text → Bool) → (User → User → Bool) → QueryOperatorsDto → Database → Page User
find_all contains before q db =
    page_of q.page q.page_size (sort_by before (filter (is_queried contains q) db.users))

abbrev pub if_custom : User → Option User
if_custom u = if u.is_custom_member then some u else none

-- `findFirst({ where: { id, isCustomMember: true } })`
abbrev pub find_custom : ℕ → List User → Option User
find_custom id users = elim (find_unique user_id id users) [ none ↦ none | some u ↦ if_custom u ]

unfoldable pub find_one : ℕ → Database → Result UserError User
find_one id db = or_throw (find_custom id db.users) UserError.operator_not_found

pub record UpdateOperatorDto : Type 0 where
  pub email : Option Text
  pub display_name : Option Text
  pub phone_number : Option Text
  pub avatar : Option Text
  pub demo_balance : Option ℤ
  pub real_balance : Option ℤ
  pub verification_status : Option VerificationStatus
  pub is_active : Option Bool

abbrev pub updated_operator : UpdateOperatorDto → User → User
updated_operator dto u = record u {
  email = get_or dto.email u.email;
  display_name = get_or dto.display_name u.display_name;
  phone_number = or_else dto.phone_number u.phone_number;
  avatar = or_else dto.avatar u.avatar;
  demo_balance = get_or dto.demo_balance u.demo_balance;
  real_balance = get_or dto.real_balance u.real_balance;
  verification_status = get_or dto.verification_status u.verification_status;
  is_active = get_or dto.is_active u.is_active;
}

unfoldable pub update_operator : ℕ → UpdateOperatorDto → Database → Result UserError Database
update_operator id dto db = do
  u ← or_throw (find_custom id db.users) UserError.operator_not_found
  check_new_email dto.email u db.users
  ok (write_user id (updated_operator dto) db)

unfoldable pub remove_operator : ℕ → Database → Result UserError Database
remove_operator id db = do
  u ← or_throw (find_custom id db.users) UserError.operator_not_found
  ok (delete_user id db)

-- The amounts are those that a row of the table holds.
pub record CreateTransactionDto : Type 0 where
  pub asset_type : Text
  pub direction : TradeDirection
  pub entry_time : ℕ
  pub expiry_time : ℕ
  pub duration : ℕ
  pub entry_price : ℕ
  pub exit_price : Option ℤ
  pub spread : ℕ
  pub invest_amount : ℕ
  pub return_rate : ℕ
  pub actual_return : ℤ
  pub status : Option TransactionStatus
  pub account_type : Option AccountType

-- `dto.status === 'SETTLED'`, before a default is put in its place.
abbrev pub says_settled : Option TransactionStatus → Bool
says_settled none = false
says_settled (some s) = is_settled s

unfoldable pub create_transaction :
    ℕ → ℕ → ℕ → CreateTransactionDto → Database → Result UserError (TransactionLog × Database)
create_transaction now order_number member dto db = do
  u ← or_throw (find_custom member db.users) UserError.operator_not_found
  let t : TransactionLog = record {
    order_number = order_number;
    user_id = member;
    user_name = u.display_name;
    account_type = get_or dto.account_type AccountType.demo;
    asset_type = dto.asset_type;
    direction = dto.direction;
    entry_time = dto.entry_time;
    expiry_time = dto.expiry_time;
    duration = dto.duration;
    entry_price = dto.entry_price;
    current_price = none;
    exit_price = dto.exit_price;
    spread = dto.spread;
    invest_amount = dto.invest_amount;
    entry_account_balance = none;
    return_rate = dto.return_rate;
    actual_return = dto.actual_return;
    settled_account_balance = none;
    status = get_or dto.status TransactionStatus.settled;
    settled_at = if says_settled dto.status then some now else none;
    manual_adjusted = false;
    manual_adjusted_by_id = none;
    manual_adjusted_by_name = none;
    manual_adjustment_reason = none;
    manual_adjusted_at = none;
    is_managed = false;
    trading_cycle_id = none;
    market_session_id = session_id_of (latest_active db.market_sessions);
    created_at = now;
  }
  ok (t, record db { transaction_logs = t ∷ db.transaction_logs })

unfoldable pub get_transactions : ℕ → ℕ → ℕ → Database → Result UserError (Page TransactionLog)
get_transactions member page page_size db = do
  u ← or_throw (find_custom member db.users) UserError.operator_not_found
  ok (
      page_of page page_size
        (sort_by is_newer (filter (λ t. t.user_id == member) db.transaction_logs)))

abbrev pub if_of : ℕ → TransactionLog → Option TransactionLog
if_of member t = if t.user_id == member then some t else none

-- `findFirst({ where: { id, userId } })`
abbrev pub find_of : ℕ → ℕ → List TransactionLog → Option TransactionLog
find_of member order_number logs = elim (find_unique order_key order_number logs) [
  | none ↦ none
  | some t ↦ if_of member t
]

pub record UpdateTransactionDto : Type 0 where
  pub asset_type : Option Text
  pub direction : Option TradeDirection
  pub entry_time : Option ℕ
  pub expiry_time : Option ℕ
  pub duration : Option ℕ
  pub entry_price : Option ℕ
  pub exit_price : Option ℤ
  pub spread : Option ℕ
  pub invest_amount : Option ℕ
  pub return_rate : Option ℕ
  pub actual_return : Option ℤ
  pub status : Option TransactionStatus
  pub account_type : Option AccountType

abbrev pub updated_transaction : ℕ → UpdateTransactionDto → TransactionLog → TransactionLog
updated_transaction now dto t = record t {
  asset_type = get_or dto.asset_type t.asset_type;
  direction = get_or dto.direction t.direction;
  entry_time = get_or dto.entry_time t.entry_time;
  expiry_time = get_or dto.expiry_time t.expiry_time;
  duration = get_or dto.duration t.duration;
  entry_price = get_or dto.entry_price t.entry_price;
  exit_price = or_else dto.exit_price t.exit_price;
  spread = get_or dto.spread t.spread;
  invest_amount = get_or dto.invest_amount t.invest_amount;
  return_rate = get_or dto.return_rate t.return_rate;
  actual_return = get_or dto.actual_return t.actual_return;
  status = get_or dto.status t.status;
  account_type = get_or dto.account_type t.account_type;
  settled_at =
      if says_settled dto.status && not (is_settled t.status) then some now else t.settled_at;
}

unfoldable pub update_transaction :
    ℕ → ℕ → ℕ → UpdateTransactionDto → Database → Result UserError Database
update_transaction now member order_number dto db = do
  t ← or_throw (find_of member order_number db.transaction_logs) UserError.transaction_not_found
  ok (record db {
    transaction_logs =
        update order_key order_number (updated_transaction now dto) db.transaction_logs;
  })

unfoldable pub delete_transaction : ℕ → ℕ → Database → Result UserError Database
delete_transaction member order_number db = do
  t ← or_throw (find_of member order_number db.transaction_logs) UserError.transaction_not_found
  ok (record db { transaction_logs = delete order_key order_number db.transaction_logs })
