-- ===== src/MarketSessions.antt =====
-- MarketSessionService (backend/src/market-session/market-session.service.ts): the sessions that
-- demo trades are won under, from their creation to their end.
pub mod Lifecycle
pub mod Listing
mod Tests
use crypto_sim_backend.Common.{
  ℕ, leb, if◌then◌else◌, Bool, true, false, not, List, [], ◌∷◌, filter, Option, none, some, get_or,
  or_else, Text, Result, ok, ◌>>=◌, ◌>>◌, throw_if, or_throw,
}
use crypto_sim_backend.Common.Table.{find_unique, update, delete}
use crypto_sim_backend.Database.{
  Database, MarketSession, MarketSessionStatus, MarketResult, TradeTypeRule, session_key, is_active,
}

pub data MarketSessionError : Type 0 where
  session_not_found active_session already_started not_running : MarketSessionError

pub record CreateMarketSessionDto : Type 0 where
  pub name : Text
  pub description : Option Text
  pub start_time : ℕ
  pub end_time : ℕ
  pub initial_result : Option MarketResult
  pub trade_types : Option (List TradeTypeRule)
  pub asset_type : Option Text

-- An empty text counts as left out, save in `description`, which may also be set to null.
pub record UpdateMarketSessionDto : Type 0 where
  pub name : Option Text
  pub description : Option (Option Text)
  pub start_time : Option ℕ
  pub end_time : Option ℕ
  pub initial_result : Option MarketResult
  pub actual_result : Option MarketResult
  pub trade_types : Option (List TradeTypeRule)
  pub asset_type : Option Text

-- `dto.field && …`
abbrev pub truthy : Option Text → Option Text
truthy none = none
truthy (some []) = none
truthy (some (c ∷ s)) = some (c ∷ s)

abbrev pub is_not_started : MarketSessionStatus → Bool
is_not_started MarketSessionStatus.pending = true
is_not_started MarketSessionStatus.active = false
is_not_started MarketSessionStatus.completed = false
is_not_started MarketSessionStatus.canceled = false

-- `upper` is `String.prototype.toUpperCase`.
module _ (upper : Text → Text) where
  abbrev pub upper_rules : List TradeTypeRule → List TradeTypeRule
  upper_rules [] = []
  upper_rules (r ∷ rs) =
      record { asset_type = upper r.asset_type; durations = r.durations } ∷ upper_rules rs

  abbrev pub normalize_trade_types : Option (List TradeTypeRule) → Option (List TradeTypeRule)
  normalize_trade_types none = none
  normalize_trade_types (some rules) = some (upper_rules rules)

  unfoldable pub create :
      ℕ → CreateMarketSessionDto → ℕ → Text → Database → MarketSession × Database
  create id dto admin admin_name db =
      let s : MarketSession = record {
        id = id;
        name = dto.name;
        description = dto.description;
        start_time = dto.start_time;
        end_time = dto.end_time;
        initial_result = get_or dto.initial_result MarketResult.pending;
        actual_result = none;
        status = MarketSessionStatus.pending;
        trade_types = normalize_trade_types dto.trade_types;
        asset_type = dto.asset_type;
        created_by_id = admin;
        created_by_name = some admin_name;
      } in
      (s, record db { market_sessions = s ∷ db.market_sessions })

  abbrev pub updated_session : UpdateMarketSessionDto → MarketSession → MarketSession
  updated_session dto s = record s {
    name = get_or (truthy dto.name) s.name;
    description = get_or dto.description s.description;
    start_time = get_or dto.start_time s.start_time;
    end_time = get_or dto.end_time s.end_time;
    initial_result = get_or dto.initial_result s.initial_result;
    actual_result = or_else dto.actual_result s.actual_result;
    trade_types = or_else (normalize_trade_types dto.trade_types) s.trade_types;
    asset_type = or_else (truthy dto.asset_type) s.asset_type;
  }

  -- Prisma's update throws where the row is missing.
  unfoldable pub update_session :
      ℕ → UpdateMarketSessionDto → Database → Result MarketSessionError (MarketSession × Database)
  update_session id dto db = do
    s ←
        or_throw (find_unique session_key id db.market_sessions)
          MarketSessionError.session_not_found
    let row = updated_session dto s
    ok (row, record db { market_sessions = update session_key id (λ _. row) db.market_sessions })

unfoldable pub find_one : ℕ → Database → Result MarketSessionError MarketSession
find_one id db =
    or_throw (find_unique session_key id db.market_sessions) MarketSessionError.session_not_found

unfoldable pub remove : ℕ → Database → Result MarketSessionError Database
remove id db = do
  s ← find_one id db
  throw_if (is_active s.status) MarketSessionError.active_session
  ok (record db { market_sessions = delete session_key id db.market_sessions })

unfoldable pub start : ℕ → Database → Result MarketSessionError (MarketSession × Database)
start id db = do
  s ← find_one id db
  throw_if (not (is_not_started s.status)) MarketSessionError.already_started
  let row = record s { status = MarketSessionStatus.active }
  ok (row, record db { market_sessions = update session_key id (λ _. row) db.market_sessions })

unfoldable pub stop : ℕ → Database → Result MarketSessionError (MarketSession × Database)
stop id db = do
  s ← find_one id db
  throw_if (not (is_active s.status)) MarketSessionError.not_running
  let row = record s { status = MarketSessionStatus.completed }
  ok (row, record db { market_sessions = update session_key id (λ _. row) db.market_sessions })

-- Descending by start time; the order of equal ones is the table's.
abbrev pub insert_session : MarketSession → List MarketSession → List MarketSession
insert_session s [] = s ∷ []
insert_session s (t ∷ ts) =
    let later = insert_session s ts in
    if leb t.start_time s.start_time then s ∷ t ∷ ts else t ∷ later

abbrev pub sort_sessions : List MarketSession → List MarketSession
sort_sessions [] = []
sort_sessions (s ∷ ss) = insert_session s (sort_sessions ss)

unfoldable pub find_active : Database → List MarketSession
find_active db = sort_sessions (filter (λ s. is_active s.status) db.market_sessions)
