-- ===== src/MarketSessions/Listing.antt =====
-- `findAll` of MarketSessionService (backend/src/market-session/market-session.service.ts).
use crypto_sim_backend.Common.{ℕ, ltb, ◌==◌, Bool, ◌&&◌, ◌||◌, filter, Option, get_or}
use crypto_sim_backend.Common.Pages.{Page, page_of, sort_by, passes}
use crypto_sim_backend.Database.{Database, MarketSession, MarketSessionStatus}

pub record GetMarketSessionsDto : Type 0 where
  pub status : Option MarketSessionStatus
  pub page : Option ℕ
  pub limit : Option ℕ

-- The order of the enumeration.
abbrev pub status_rank : MarketSessionStatus → ℕ
status_rank MarketSessionStatus.pending = 0
status_rank MarketSessionStatus.active = 1
status_rank MarketSessionStatus.completed = 2
status_rank MarketSessionStatus.canceled = 3

abbrev pub same_status : MarketSessionStatus → MarketSessionStatus → Bool
same_status a b = status_rank a == status_rank b

-- `[{ status: 'asc' }, { startTime: 'desc' }]`
abbrev pub lists_before : MarketSession → MarketSession → Bool
lists_before a b =
    ltb (status_rank a.status) (status_rank b.status)
    || (same_status a.status b.status && ltb b.start_time a.start_time)

unfoldable pub find_all : GetMarketSessionsDto → Database → Page MarketSession
find_all q db =
    page_of (get_or q.page 1) (get_or q.limit 20) (
      sort_by lists_before
        (filter (λ s. passes q.status (same_status s.status)) db.market_sessions))
