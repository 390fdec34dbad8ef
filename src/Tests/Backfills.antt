-- ===== src/Tests/Backfills.antt =====
-- Back-fills of two stocks, and a suspended one in the daily statuses.
use stock_platform.Prelude.{ℕ, ◌-◌, ◌≡◌, refl, arith, true, none, some, List, [], ◌∷◌, first}
use stock_platform.Prelude.Result.{ok, err, value_error, ok_of_is_ok}
use stock_platform.Prelude.Dict.{get_or, lookup}
use stock_platform.Float.{Fixed, fixed, fixed_float}
use stock_platform.Calendar.{Date}
use stock_platform.Execution.{
  sell, buy, match_fill, fetch_tradability, defer, skip, sell_blocked, buy_blocked,
}
use stock_platform.Backfill.Windows.{chunk_windows, windows_from}
use stock_platform.Backfill.State.{
  Row, pending, failed, raised, is_complete, is_filled, expected_bars,
}
use stock_platform.Backfill.Visit.{
  Fetch, visit, history_policy, rebuild_policy, sync_stock_history, sync_windows,
}
use stock_platform.Backfill.Batch.{Batch, opening, has_id, run_loop}
use stock_platform.Backfill.Batch.Steps.{Passes, visit-Passes}
use stock_platform.Backfill.Batch.Selection.{OneId}
use stock_platform.Backfill.Batch.Drain.{run_ticks}
use stock_platform.Backfill.Batch.Settled.{row_ids, AreSettled, run_ticks-settles}
use stock_platform.Backfill.Batch.Breaker.{run_loop_cut}
use stock_platform.Backfill.Seed.{Table, ensure_state, seed_rows, fresh_row}
use stock_platform.TradeStatus.Compute.{Bar, Listed, Status, engine_rows, compute_trade_status}
use stock_platform.TradeStatus.Suspension.{compute_trade_status-suspended}
use stock_platform.Tests.Data.{today}

-- Sources that are down, and sources that bring one bar of the day.
abbrev down : Fetch
down code start end bars = (bars, err value_error)

abbrev up : Fetch
up code start end bars = ((code, end) ∷ bars, ok 1)

abbrev first_row : Row
first_row = fresh_row 1 600000 (today - 1) none pending 1

abbrev rows : List Row
rows = first_row ∷ fresh_row 2 600519 today none pending 1 ∷ []

visit-Passes_example : Passes first_row (visit Fixed history_policy down today first_row []).1.row
visit-Passes_example = visit-Passes Fixed history_policy down today first_row []

rows-OneId : OneId rows
rows-OneId id = ground arith

abbrev ticks : List (Fetch × Date)
ticks =
    (down, today)
    ∷ (up, today)
    ∷ (down, today)
    ∷ (down, today)
    ∷ (down, today)
    ∷ (down, today)
    ∷ (down, today)
    ∷ (down, today)
    ∷ (down, today)
    ∷ (up, today)
    ∷ []

run_ticks-settles_example :
    let rows' = run_ticks Fixed history_policy 2 ticks rows [] in
    (row_ids rows' ≡ row_ids rows) × AreSettled rows'
run_ticks-settles_example =
    run_ticks-settles Fixed history_policy ticks 2 rows [] rows-OneId (refl, (refl, tt))
      (omega arith) (omega arith)

-- Nine failures in a row, before the tenth.
abbrev tired : Batch
tired = record (opening rows []) { consecutive = 9 }

run_loop_cut_example :
    (first (has_id 1) (run_loop Fixed history_policy down today (1 ∷ 2 ∷ []) tired).saved
      ≡ some first_row)
    × ((s : Row) × (first
            (has_id 1)
            (run_loop Fixed rebuild_policy down today (1 ∷ 2 ∷ []) tired).saved
          ≡ some s)
        × (s.attempts ≡ 1)
        × (s.last_error ≡ some (raised value_error)))
unfolding sync_stock_history sync_windows chunk_windows windows_from
run_loop_cut_example =
    run_loop_cut Fixed down today 1 (2 ∷ []) tired {r = first_row} {x = value_error} refl refl
      (omega arith) refl

abbrev empty : Table
empty = record { rows = []; next_id = 1 }

seeded :
    (v : Table × ℕ) × (ensure_state Fixed 10 today [] []
        ((600000, none) ∷ (600519, some today) ∷ [])
        empty
      ≡ ok v)
unfolding ensure_state seed_rows is_complete is_filled expected_bars
seeded = ok_of_is_ok _ refl

abbrev mixed : List Row
mixed = record first_row { status = failed; attempts = 5 } ∷ rows

-- 600519 is in the pool of the day and has no bar, and was tradable by the row before.
abbrev pool : List Listed
pool =
    record { stock_code = 600519; trade_date = today; stock_name = b'S' ∷ b'T' ∷ [] }
    ∷ record { stock_code = 600000; trade_date = today; stock_name = b'X' ∷ [] }
    ∷ []

abbrev bars : List (Bar Fixed)
bars =
    record {
      stock_code = 600000;
      trade_date = today;
      opening = some (fixed 10);
      close = some (fixed 10);
      high = some (fixed 10);
      low = some (fixed 10);
    }
    ∷ []

computed : (v : List Status × ℕ) × (compute_trade_status pool bars today [] ≡ v)
computed = (compute_trade_status pool bars today [], refl)

compute_trade_status-suspended_example :
    let (sell_ok, buy_ok) = fetch_tradability (engine_rows computed.0.0) (600519 ∷ []) today in
    (match_fill sell (some (fixed 10)) (get_or true (lookup 600519 sell_ok))
      ≡ ok (defer, some sell_blocked))
    × (match_fill buy (some (fixed 10)) (get_or true (lookup 600519 buy_ok))
        ≡ ok (skip, some buy_blocked))
compute_trade_status-suspended_example =
    compute_trade_status-suspended pool bars today 600519 (600519 ∷ []) [] refl refl refl refl
      computed.1 (some (fixed 10))
