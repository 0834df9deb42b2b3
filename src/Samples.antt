-- ===== src/Samples.antt =====
-- Rows that the tests of several components start from.
use crypto_sim_backend.Common.{pos, [], ◌∷◌, none, text, true, false}
use crypto_sim_backend.Database.{Database, User, VerificationStatus}

abbrev pub alice : User
alice = record {
  id = 1;
  email = text "alice@example.com";
  display_name = text "alice";
  password_hash = text "hash";
  refresh_token_hash = none;
  roles = text "trader" ∷ [];
  is_active = true;
  last_login_at = none;
  last_login_ip = none;
  avatar = none;
  phone_number = none;
  id_card_front = none;
  id_card_back = none;
  passport_photo = none;
  document_type = none;
  is_custom_member = false;
  created_by = none;
  admin_remark = none;
  created_at = 0;
  demo_balance = pos 5000;
  real_balance = pos 1000;
  total_profit_loss = pos 0;
  total_trades = 0;
  win_rate = 0;
  verification_status = VerificationStatus.verified;
  trade_durations = none;
}

abbrev pub start : Database
start = record {
  users = alice ∷ [];
  transaction_logs = [];
  market_sessions = [];
  funding_records = [];
  balance_ledgers = [];
  deposit_addresses = [];
  deposit_allocations = [];
  trading_sessions = [];
  trading_cycles = [];
}
