-- ===== src/TradingManagement.antt =====
-- TradingManagementService (backend/src/trading-management/trading-management.service.ts): the
-- managed sessions of the users and their cycles. The clock, the drawn identifiers and the price that
-- `getCurrentPrice` finds are arguments. A row that is created stands at the front of its table.
pub mod Completion
pub mod Numbers
pub mod Sessions
pub mod Listing
mod Tests
use crypto_sim_backend.Common.{
  ℕ, ◌+◌, ◌*◌, ltb, leb, ◌==◌, if◌then◌else◌, Bool, not, true, false, ◌&&◌, List, [], ◌∷◌, any,
  filter, find?, Option, none, some, get_or, Text, Result, ok, ◌>>=◌, ◌>>◌, throw_if, or_throw,
}
use crypto_sim_backend.Common.Table.{find_unique, update, update_many, delete, contains}
use crypto_sim_backend.Database.{
  Database, user_id, AccountType, TransactionLog, order_key, TradingSession, TradingSessionStatus,
  trading_session_key, is_live, TradingCycle, CycleStatus, cycle_key, is_running, is_unfinished,
}

pub data TradingError : Type 0 where
  user_not_found session_exists session_not_found : TradingError
  not_active not_paused transaction_not_found : TradingError

pub record CreateTradingSessionDto : Type 0 where
  pub user_id : ℕ
  pub cycle_interval_sec : ℕ
  pub asset_type : Text
  pub account_type : Option AccountType

abbrev pub is_live_of : ℕ → TradingSession → Bool
is_live_of uid s = (s.user_id == uid) && is_live s.status

abbrev pub is_paused : TradingSessionStatus → Bool
is_paused TradingSessionStatus.paused = true
is_paused TradingSessionStatus.active = false
is_paused TradingSessionStatus.stopped = false

-- The highest number among the session's cycles, 0 where it has none.
abbrev pub latest_number : ℕ → List TradingCycle → ℕ
latest_number sid [] = 0
latest_number sid (c ∷ cs) =
    let rest = latest_number sid cs in
    if (c.trading_session_id == sid) && ltb rest c.cycle_number then c.cycle_number else rest

-- `price ? new Decimal(price) : null`
abbrev pub price_or_null : Option ℕ → Option ℕ
price_or_null none = none
price_or_null (some p) = if ltb 0 p then some p else none

abbrev pub next_cycle : ℕ → ℕ → Option ℕ → TradingSession → List TradingCycle → TradingCycle
next_cycle now id price s cycles = record {
  id = id;
  trading_session_id = s.id;
  cycle_number = latest_number s.id cycles + 1;
  asset_type = s.asset_type;
  start_time = now;
  end_time = now + s.cycle_interval_sec * 1000;
  duration_sec = s.cycle_interval_sec;
  start_price = price_or_null price;
  end_price = none;
  status = CycleStatus.running;
  transaction_count = 0;
}

abbrev pub start_cycle : ℕ → ℕ → Option ℕ → TradingSession → Database → Database
start_cycle now id price s db =
    if is_live s.status
    then record db {
      trading_cycles = next_cycle now id price s db.trading_cycles ∷ db.trading_cycles;
    }
    else db

-- A session that is missing or not active is passed over.
abbrev pub create_next_cycle : ℕ → ℕ → (Text → Option ℕ) → ℕ → Database → Database
create_next_cycle now id price sid db =
    elim (find_unique trading_session_key sid db.trading_sessions) [
      | none ↦ db
      | some s ↦ start_cycle now id (price s.asset_type) s db
    ]

abbrev pub new_session : ℕ → CreateTradingSessionDto → ℕ → Option Text → Text → TradingSession
new_session id dto admin admin_name user_name = record {
  id = id;
  user_id = dto.user_id;
  user_name = user_name;
  status = TradingSessionStatus.active;
  cycle_interval_sec = dto.cycle_interval_sec;
  asset_type = dto.asset_type;
  account_type = get_or dto.account_type AccountType.demo;
  created_by_id = admin;
  created_by_name = admin_name;
  stopped_at = none;
}

unfoldable pub create_session :
    ℕ
    → ℕ
    → ℕ
    → (Text → Option ℕ)
    → CreateTradingSessionDto
    → ℕ
    → Option Text
    → Database
    → Result TradingError (TradingSession × Database)
create_session now id cycle_id price dto admin admin_name db = do
  u ← or_throw (find_unique user_id dto.user_id db.users) TradingError.user_not_found
  throw_if (any (is_live_of dto.user_id) db.trading_sessions) TradingError.session_exists
  let s = new_session id dto admin admin_name u.display_name
  let db' = record db { trading_sessions = s ∷ db.trading_sessions }
  ok (s, create_next_cycle now cycle_id price id db')

abbrev pub is_unfinished_of : ℕ → TradingCycle → Bool
is_unfinished_of sid c = (c.trading_session_id == sid) && is_unfinished c.status

abbrev pub failed_cycle : TradingCycle → TradingCycle
failed_cycle c = record c { status = CycleStatus.failed }

unfoldable pub stop_session : ℕ → ℕ → Database → Result TradingError (TradingSession × Database)
stop_session now sid db = do
  s ←
      or_throw (find_unique trading_session_key sid db.trading_sessions)
        TradingError.session_not_found
  throw_if (not (is_live s.status)) TradingError.not_active
  let row = record s { status = TradingSessionStatus.stopped; stopped_at = some now }
  ok (
    row,
    record db {
      trading_sessions = update trading_session_key sid (λ _. row) db.trading_sessions;
      trading_cycles = update_many (is_unfinished_of sid) failed_cycle db.trading_cycles;
    },
  )

unfoldable pub pause_session : ℕ → Database → Result TradingError (TradingSession × Database)
pause_session sid db = do
  s ←
      or_throw (find_unique trading_session_key sid db.trading_sessions)
        TradingError.session_not_found
  throw_if (not (is_live s.status)) TradingError.not_active
  let row = record s { status = TradingSessionStatus.paused }
  ok (
    row,
    record db { trading_sessions = update trading_session_key sid (λ _. row) db.trading_sessions },
  )

unfoldable pub resume_session : ℕ → Database → Result TradingError (TradingSession × Database)
resume_session sid db = do
  s ←
      or_throw (find_unique trading_session_key sid db.trading_sessions)
        TradingError.session_not_found
  throw_if (not (is_paused s.status)) TradingError.not_paused
  let row = record s { status = TradingSessionStatus.active }
  ok (
    row,
    record db { trading_sessions = update trading_session_key sid (λ _. row) db.trading_sessions },
  )

-- The cycles of a deleted session go with it, and its trades lose their cycle.
abbrev pub is_cycle_of : ℕ → TradingCycle → Bool
is_cycle_of sid c = c.trading_session_id == sid

abbrev pub in_cycle : List TradingCycle → TransactionLog → Bool
in_cycle cycles t = elim t.trading_cycle_id [ none ↦ false | some k ↦ contains cycle_key k cycles ]

unfoldable pub delete_session : ℕ → Database → Result TradingError Database
delete_session sid db = do
  s ←
      or_throw (find_unique trading_session_key sid db.trading_sessions)
        TradingError.session_not_found
  let gone = filter (is_cycle_of sid) db.trading_cycles
  ok (record db {
    trading_sessions = delete trading_session_key sid db.trading_sessions;
    trading_cycles = filter (λ c. not (is_cycle_of sid c)) db.trading_cycles;
    transaction_logs =
        update_many (in_cycle gone) (λ t. record t { trading_cycle_id = none }) db.transaction_logs;
  })

-- The running cycle of the session that starts last.
abbrev pub later_cycle : TradingCycle → Option TradingCycle → TradingCycle
later_cycle c none = c
later_cycle c (some d) = if leb d.start_time c.start_time then c else d

abbrev pub latest_running : ℕ → List TradingCycle → Option TradingCycle
latest_running sid [] = none
latest_running sid (c ∷ cs) =
    let rest = latest_running sid cs in
    if is_cycle_of sid c && is_running c.status then some (later_cycle c rest) else rest

abbrev pub marked : ℕ → TransactionLog → TransactionLog
marked cycle t = record t { is_managed = true; trading_cycle_id = some cycle }

abbrev pub mark_in_cycle : ℕ → Option TradingCycle → Database → Result TradingError Database
mark_in_cycle order none db = ok db
mark_in_cycle order (some c) db = do
  t ← or_throw (find_unique order_key order db.transaction_logs) TradingError.transaction_not_found
  ok (record db {
    transaction_logs = update order_key order (marked c.id) db.transaction_logs;
    trading_cycles =
        update cycle_key c.id (λ d. record d { transaction_count = d.transaction_count + 1 })
          db.trading_cycles;
  })

unfoldable pub mark_managed_transaction : ℕ → ℕ → Database → Result TradingError Database
mark_managed_transaction uid order db = elim (find? (is_live_of uid) db.trading_sessions) [
  | none ↦ ok db
  | some s ↦ mark_in_cycle order (latest_running s.id db.trading_cycles) db
]
