-- ===== src/TradingManagement/Listing.antt =====
-- The queries of TradingManagementService (backend/src/trading-management/trading-management.service.ts).
-- The tables hold the newest row first.
use crypto_sim_backend.Common.{
  given, ℕ, ltb, ◌==◌, Bool, true, false, ◌&&◌, List, filter, map, take, Option, none, some, get_or,
  Text, text_eq, Result, ok, ◌>>=◌, or_throw,
}
use crypto_sim_backend.Common.Table.{find_unique}
use crypto_sim_backend.Common.Pages.{Page, page_of, sort_by, passes}
use crypto_sim_backend.Database.{
  Database, AccountType, same_account, TransactionLog, TradingSession, TradingSessionStatus,
  trading_session_key, TradingCycle, CycleStatus,
}
use crypto_sim_backend.TradingManagement.{TradingError, is_cycle_of}

pub record QueryTradingSessionsDto : Type 0 where
  pub page : Option ℕ
  pub page_size : Option ℕ
  pub user_id : Option ℕ
  pub status : Option TradingSessionStatus
  pub asset_type : Option Text
  pub account_type : Option AccountType

pub record QueryTradingCyclesDto : Type 0 where
  pub page : Option ℕ
  pub page_size : Option ℕ
  pub trading_session_id : Option ℕ
  pub status : Option CycleStatus
  pub asset_type : Option Text

abbrev pub same_status : TradingSessionStatus → TradingSessionStatus → Bool
same_status TradingSessionStatus.active TradingSessionStatus.active = true
same_status TradingSessionStatus.stopped TradingSessionStatus.stopped = true
same_status TradingSessionStatus.paused TradingSessionStatus.paused = true
same_status _ _ = false

abbrev pub same_cycle_status : CycleStatus → CycleStatus → Bool
same_cycle_status CycleStatus.pending CycleStatus.pending = true
same_cycle_status CycleStatus.running CycleStatus.running = true
same_cycle_status CycleStatus.completed CycleStatus.completed = true
same_cycle_status CycleStatus.failed CycleStatus.failed = true
same_cycle_status _ _ = false

-- The cycles of a session, the highest number first, as many as are asked for.
abbrev pub latest_cycles : ℕ → ℕ → Database → List TradingCycle
latest_cycles n sid db = take n (
    sort_by (λ a b. ltb b.cycle_number a.cycle_number) (filter (is_cycle_of sid) db.trading_cycles))

abbrev pub is_session_queried : QueryTradingSessionsDto → TradingSession → Bool
is_session_queried q s =
    passes q.user_id (λ u. s.user_id == u)
    && passes q.status (same_status s.status)
    && passes (given q.asset_type) (text_eq s.asset_type)
    && passes q.account_type (same_account s.account_type)

unfoldable pub find_all_sessions :
    QueryTradingSessionsDto → Database → Page (TradingSession × List TradingCycle)
find_all_sessions q db =
    page_of (get_or q.page 1) (get_or q.page_size 10)
      (map (λ s. (s, latest_cycles 1 s.id db)) (filter (is_session_queried q) db.trading_sessions))

unfoldable pub find_one_session :
    ℕ → Database → Result TradingError (TradingSession × List TradingCycle)
find_one_session sid db = do
  s ←
      or_throw (find_unique trading_session_key sid db.trading_sessions)
        TradingError.session_not_found
  ok (s, latest_cycles 10 sid db)

abbrev pub is_cycle_queried : QueryTradingCyclesDto → TradingCycle → Bool
is_cycle_queried q c =
    passes q.trading_session_id (λ s. c.trading_session_id == s)
    && passes q.status (same_cycle_status c.status)
    && passes (given q.asset_type) (text_eq c.asset_type)

abbrev pub is_in : Option ℕ → ℕ → Bool
is_in none cycle = false
is_in (some c) cycle = c == cycle

-- Each cycle with its session and its trades.
unfoldable pub find_all_cycles :
    QueryTradingCyclesDto
    → Database
    → Page (TradingCycle × Option TradingSession × List TransactionLog)
find_all_cycles q db = page_of (get_or q.page 1) (get_or q.page_size 10) (
    map
      (λ c. (
        c,
        find_unique trading_session_key c.trading_session_id db.trading_sessions,
        filter (λ t. is_in t.trading_cycle_id c.id) db.transaction_logs,
      ))
      (sort_by (λ a b. ltb b.start_time a.start_time)
        (filter (is_cycle_queried q) db.trading_cycles)))
