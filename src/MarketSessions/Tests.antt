-- ===== src/MarketSessions/Tests.antt =====
-- A market session that is started and stopped, and the theorem on its life at these calls.
use crypto_sim_backend.Common.{◌≡◌, refl, [], ◌∷◌, none, text, arith}
use crypto_sim_backend.Common.Pages.{page_of}
use crypto_sim_backend.Samples.{start}
use crypto_sim_backend.Database.{Database, MarketSession, MarketSessionStatus, MarketResult}
use crypto_sim_backend.MarketSessions.Listing.{find_all}
use crypto_sim_backend.MarketSessions.Lifecycle.{starts, stops, IsPast, run, run-IsPast}

abbrev session : MarketSession
session = record {
  id = 1;
  name = text "noon";
  description = none;
  start_time = 0;
  end_time = 100;
  initial_result = MarketResult.pending;
  actual_result = none;
  status = MarketSessionStatus.active;
  trade_types = none;
  asset_type = none;
  created_by_id = 9;
  created_by_name = none;
}

abbrev opened : Database
opened = record start { market_sessions = session ∷ [] }

run-IsPast_example : IsPast 1 1 (run (λ s. s) opened (stops 1 ∷ starts 1 ∷ starts 2 ∷ []))
run-IsPast_example =
    run-IsPast (λ s. s) 1 1 opened (stops 1 ∷ starts 1 ∷ starts 2 ∷ [])
      (record { session = session; found = refl; past = omega arith })

-- A session that is still to open comes before one that is open.
listed_in_order :
    find_all
      (record { status = none; page = none; limit = none })
      (record start {
        market_sessions =
            session ∷ record session { id = 2; status = MarketSessionStatus.pending } ∷ [];
      })
    ≡ page_of 1 20 (record session { id = 2; status = MarketSessionStatus.pending } ∷ session ∷ [])
unfolding find_all
listed_in_order = refl
