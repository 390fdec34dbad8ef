-- ===== src/Tests/Klines.antt =====
-- The stores of daily bars at concrete inputs over `Fixed` decimals.
use stock_platform.Prelude.{
  not, elem, leb, ltb, ◌&&◌, ◌≡◌, ◌*◌, refl, true, false, none, some, List, [], ◌∷◌, ℕ, first, keep,
  map,
}
use stock_platform.Prelude.Int.{pos}
use stock_platform.Float.{Fixed, fixed, fixed_float, unit, ◌⊗◌}
use stock_platform.Calendar.{Date, weekday}
use stock_platform.Kline.Rows.{Bar, tencent, is_bar, is_valid, kline_row, upsert_kline_rows}
use stock_platform.Kline.Rows.Laws.{last_or, upsert_kline_rows-first}
use stock_platform.Kline.Factors.{Factor, compute_factor_chain, detect_factor_events}
use stock_platform.Kline.Factors.Chain.{
  dates_of, move_dates, Follows, Starts, compute_factor_chain-Follows,
}
use stock_platform.Kline.Sync.{Store, moves_of, maintain_factor_incremental}
use stock_platform.Startup.{
  gap_start, gap_cap, detect_gap, latest_complete_trade_date, first_partial, settled_counts,
}
use stock_platform.Startup.Days.{elem-detect_gap}
use stock_platform.Execution.{Code}
use stock_platform.Sources.Bars.{sh}
use stock_platform.Universe.{Spot, PoolRow, is_replaced, sync_pool_snapshot}
use stock_platform.Universe.Snapshot.{sync_pool_snapshot_again}
use stock_platform.Kline.Sync.Stale.{is_factor, row_at, maintain_factor_incremental_stale}

-- A bar of 600000 in tenths of a yuan.
abbrev pub tenths : ℕ → Fixed
tenths n = pos (n * 1_000_000)

abbrev pub bar : Date → ℕ → ℕ → Bar Fixed
bar d close pct = record {
  stock_code = 600000;
  trade_date = d;
  opening = some (tenths close);
  close = some (tenths close);
  high = some (tenths close);
  low = some (tenths close);
  volume = some (pos 1);
  amount = none;
  pct_change = some (tenths pct);
  turnover = none;
  source = some tencent;
}

-- Two rows of one day, the later one wins, over an old row.
upsert_kline_rows-first_example :
    first
      (is_bar 600000 5)
      (upsert_kline_rows (some tencent) (bar 5 101 10 ∷ bar 5 102 20 ∷ []) (bar 5 99 0 ∷ [])).0
    ≡ last_or 600000 5
        (first (is_bar 600000 5) (bar 5 99 0 ∷ []))
        (map (kline_row (some tencent)) (keep is_valid (bar 5 101 10 ∷ bar 5 102 20 ∷ [])))
upsert_kline_rows-first_example =
    upsert_kline_rows-first 600000 5 (some tencent) (bar 5 101 10 ∷ bar 5 102 20 ∷ [])
      (bar 5 99 0 ∷ [])

-- The close halves on the third day, while the true return is nothing.
abbrev pub bars : List (Bar Fixed)
bars = bar 1 100 0 ∷ bar 2 100 0 ∷ bar 3 50 0 ∷ bar 4 50 0 ∷ []

one_event : detect_factor_events (moves_of bars) ≡ 3 ∷ []
unfolding detect_factor_events
one_event = refl

compute_factor_chain-Follows_example :
    (dates_of (compute_factor_chain (moves_of bars)) ≡ move_dates (moves_of bars))
    × Starts unit (compute_factor_chain (moves_of bars))
    × Follows (detect_factor_events (moves_of bars)) unit (compute_factor_chain (moves_of bars))
compute_factor_chain-Follows_example = compute_factor_chain-Follows (moves_of bars)

-- The factor of the first day is 1, and 2 from the third day on.
abbrev factor_of : Date → ℕ → Factor Fixed
factor_of d n = record {
  stock_code = 600000;
  trade_date = d;
  adj_factor = fixed n;
  anchored = true;
}

abbrev pub store : Store Fixed
store = record {
  klines = bars;
  factors = factor_of 1 1 ∷ factor_of 2 1 ∷ factor_of 3 2 ∷ factor_of 4 2 ∷ [];
}

-- The second day is fetched again, and gets the factor of the fourth.
maintain_factor_incremental_stale_example :
    let (store', event) = maintain_factor_incremental 600000 (bar 2 100 0 ∷ []) store in
    (event ≡ false)
    × (first (is_factor 600000 2) store'.factors ≡ some (row_at 600000 2 (unit ⊗ fixed 2)))
unfolding detect_factor_events
maintain_factor_incremental_stale_example =
    maintain_factor_incremental_stale 600000 (bar 2 100 0) [] store (factor_of 4 2) 2 refl refl refl

-- Wednesday and Friday have a settled bar, and the Thursday between them has none.
abbrev with_hole : List (Bar Fixed)
with_hole = bar 739868 100 1 ∷ bar 739870 100 2 ∷ []

elem-detect_gap_example : elem 739871 (detect_gap with_hole 739875 18) ≡ (
    leb (gap_start 739870 with_hole) 739871
    && leb 739871 (gap_cap 739870 739875 18)
    && ltb (weekday 739871) 5)
unfolding latest_complete_trade_date
elem-detect_gap_example = elem-detect_gap with_hole 739875 18 739871 {latest = 739870} refl

-- The next gap is Monday to Wednesday.
next_gap : detect_gap with_hole 739875 18 ≡ 739873 ∷ 739874 ∷ 739875 ∷ []
unfolding detect_gap latest_complete_trade_date first_partial settled_counts
next_gap = refl

-- The Thursday is not in the gap.
hole_stays : elem 739869 (detect_gap with_hole 739875 18) ≡ false
unfolding detect_gap latest_complete_trade_date first_partial settled_counts
hole_stays = refl

-- Two stocks in the snapshot of a day, one of them with the industry of the day before.
abbrev spot : Code → Spot Fixed
spot code = record {
  stock_code = some code;
  stock_name = none;
  close = some (tenths 100);
  pct_change = none;
  total_mv = none;
  circ_mv = none;
  turnover = none;
  pe = none;
  pb = none;
}

abbrev old_row : Date → PoolRow Fixed
old_row d = record {
  pool_name = 0;
  trade_date = d;
  stock_code = 600000;
  stock_name = none;
  exchange = sh;
  industry = some 4;
  close = none;
  pct_change = none;
  total_mv = none;
  circ_mv = none;
  turnover = none;
  pe = none;
  pb = none;
}

sync_pool_snapshot_again_example :
    let spots = spot 600000 ∷ spot 830000 ∷ [] in
    let table = old_row 8 ∷ old_row 9 ∷ [] in
    let written = sync_pool_snapshot spots 0 9 table in
    (sync_pool_snapshot spots 0 9 written.0 ≡ written)
    × (keep (λ r. not (is_replaced 0 9 r)) written.0 ≡ keep (λ r. not (is_replaced 0 9 r)) table)
sync_pool_snapshot_again_example =
    sync_pool_snapshot_again (spot 600000 ∷ spot 830000 ∷ []) 0 9 (old_row 8 ∷ old_row 9 ∷ [])
