-- ===== src/TradingManagement/Completion.antt =====
-- The scheduled completion of cycles: `handleCycleCompletion`
-- (backend/src/trading-management/trading-management.service.ts).
use crypto_sim_backend.Common.{
  ℕ, leb, if◌then◌else◌, Bool, true, false, ◌&&◌, List, [], ◌∷◌, filter, Option, none, some, Text,
}
use crypto_sim_backend.Common.Table.{find_unique, update}
use crypto_sim_backend.Database.{
  Database, TradingSession, trading_session_key, is_live, TradingCycle, CycleStatus, cycle_key,
  is_running,
}
use crypto_sim_backend.TradingManagement.{price_or_null, failed_cycle, create_next_cycle}

-- What the scheduled job completes.
abbrev pub is_due : ℕ → TradingCycle → Bool
is_due now c = is_running c.status && leb c.end_time now

abbrev pub completed_cycle : Option ℕ → TradingCycle → TradingCycle
completed_cycle price c = record c {
  status = CycleStatus.completed;
  end_price = price_or_null price;
}

-- What the database does in a round: nothing fails, the first write fails, the creation of the next
-- cycle fails, or each of these and the write that marks the cycle as failed too.
pub data RoundFault : Type 0 where
  no_fault at_update at_creation at_update_and_mark at_creation_and_mark : RoundFault

abbrev pub fails_update : RoundFault → Bool
fails_update RoundFault.no_fault = false
fails_update RoundFault.at_update = true
fails_update RoundFault.at_creation = false
fails_update RoundFault.at_update_and_mark = true
fails_update RoundFault.at_creation_and_mark = false

abbrev pub fails_creation : RoundFault → Bool
fails_creation RoundFault.no_fault = false
fails_creation RoundFault.at_update = false
fails_creation RoundFault.at_creation = true
fails_creation RoundFault.at_update_and_mark = false
fails_creation RoundFault.at_creation_and_mark = true

abbrev pub fails_mark : RoundFault → Bool
fails_mark RoundFault.no_fault = false
fails_mark RoundFault.at_update = false
fails_mark RoundFault.at_creation = false
fails_mark RoundFault.at_update_and_mark = true
fails_mark RoundFault.at_creation_and_mark = true

abbrev pub complete : (Text → Option ℕ) → TradingCycle → Database → Database
complete price c db = record db {
  trading_cycles = update cycle_key c.id (completed_cycle (price c.asset_type)) db.trading_cycles;
}

-- The `catch`: whether its write goes through, and the database after it.
abbrev pub mark_failed : RoundFault → TradingCycle → Database → Bool × Database
mark_failed fault c db =
    if fails_mark fault
    then (false, db)
    else (true, record db { trading_cycles = update cycle_key c.id failed_cycle db.trading_cycles })

-- A round reads the clock again and draws an identifier; `was_live` is the session's status at the
-- time of the query. Its result says whether the loop goes on, which it does unless the `catch` throws.
unfoldable pub complete_cycle :
    (ℕ → ℕ)
    → (ℕ → ℕ)
    → (Text → Option ℕ)
    → RoundFault
    → TradingCycle
    → Bool
    → Database
    → Bool × Database
complete_cycle clock new_id price fault c was_live db =
    if fails_update fault
    then mark_failed fault c db
    else if was_live
    then (if fails_creation fault then mark_failed fault c (complete price c db) else (
      true,
      create_next_cycle (clock c.id) (new_id c.id) price c.trading_session_id (complete price c db),
    ))
    else (true, complete price c db)

abbrev pub was_live : ℕ → List TradingSession → Bool
was_live sid sessions = elim (find_unique trading_session_key sid sessions) [
  | none ↦ false
  | some s ↦ is_live s.status
]

module _ (clock : ℕ → ℕ) (new_id : ℕ → ℕ) (price : Text → Option ℕ) (fault : ℕ → RoundFault) where
  unfoldable pub complete_each : List TradingSession → List TradingCycle → Database → Database
  complete_each sessions [] db = db
  complete_each sessions (c ∷ cs) db =
      let round =
        complete_cycle clock new_id price (fault c.id) c (was_live c.trading_session_id sessions)
          db in
      let rest = complete_each sessions cs round.1 in if round.0 then rest else round.1

  unfoldable pub handle_cycle_completion : ℕ → Database → Database
  handle_cycle_completion now db =
      complete_each db.trading_sessions (filter (is_due now) db.trading_cycles) db
