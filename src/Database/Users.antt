-- ===== src/Database/Users.antt =====
-- The `User` rows: identity and login, balances of the two accounts and the statistics of the real one.
use crypto_sim_backend.Common.{ℕ, ℤ, Bool, true, false, List, Option, Text}

pub data VerificationStatus : Type 0 where
  pending in_review verified rejected : VerificationStatus

pub data AccountType : Type 0 where
  demo real : AccountType

-- An item of the JSON column `tradeDurations` after `Number(v)`: an integer, or anything else.
pub data NumberValue : Type 0 where
  whole : ℤ → NumberValue
  not_whole : NumberValue

-- `win_rate` is in hundredths of a percent, the scale of its column. `trade_durations` is `none`
-- where the column holds no array.
pub record User : Type 0 where
  pub id : ℕ
  pub email : Text
  pub display_name : Text
  pub password_hash : Text
  pub refresh_token_hash : Option Text
  pub roles : List Text
  pub is_active : Bool
  pub last_login_at : Option ℕ
  pub last_login_ip : Option Text
  pub avatar : Option Text
  pub phone_number : Option Text
  pub id_card_front : Option Text
  pub id_card_back : Option Text
  pub passport_photo : Option Text
  pub document_type : Option Text
  pub is_custom_member : Bool
  pub created_by : Option ℕ
  pub admin_remark : Option Text
  pub created_at : ℕ
  pub demo_balance : ℤ
  pub real_balance : ℤ
  pub total_profit_loss : ℤ
  pub total_trades : ℕ
  pub win_rate : ℕ
  pub verification_status : VerificationStatus
  pub trade_durations : Option (List NumberValue)

abbrev pub user_id : User → ℕ
user_id u = u.id

abbrev pub is_real : AccountType → Bool
is_real AccountType.demo = false
is_real AccountType.real = true

abbrev pub same_account : AccountType → AccountType → Bool
same_account AccountType.demo AccountType.demo = true
same_account AccountType.demo AccountType.real = false
same_account AccountType.real AccountType.demo = false
same_account AccountType.real AccountType.real = true

-- The balance of one of the two accounts, and a write of it.
abbrev pub balance_of : AccountType → User → ℤ
balance_of AccountType.demo u = u.demo_balance
balance_of AccountType.real u = u.real_balance

abbrev pub set_balance : AccountType → ℤ → User → User
set_balance AccountType.demo b u = record u { demo_balance = b }
set_balance AccountType.real b u = record u { real_balance = b }
