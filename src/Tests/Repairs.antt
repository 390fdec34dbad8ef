-- ===== src/Tests/Repairs.antt =====
-- Detection and repair of bad bars, at concrete inputs over `Fixed` decimals.
use stock_platform.Prelude.{
  ◌≡◌, ◌≤◌, ◌+◌, refl, true, none, some, List, [], ◌∷◌, ℕ, first, All, Option,
}
use stock_platform.Prelude.Dict.{Dict, keys}
use stock_platform.Float.{Fixed, fixed, fixed_float}
use stock_platform.Calendar.{Date}
use stock_platform.Execution.{Code}
use stock_platform.Kline.Rows.{Bar, is_bar, upsert_kline_rows, validate_daily_row}
use stock_platform.Repair.Runs.{Quote, freeze_run_len, flat_flags, frozen_segments}
use stock_platform.Repair.Runs.Maximal.{IsMaximal, flag_at}
use stock_platform.Repair.Runs.Spans.{IsFrozen, has_segment, frozen_segments-IsFrozen}
use stock_platform.Repair.Codes.{
  Settings, legacy, Fetched, Span, Stores, quotes_of, repair_findings,
}
use stock_platform.Repair.Codes.Tried.{Tried}
use stock_platform.Repair.Codes.Breaker.{repair_findings-Tried}
use stock_platform.Repair.Gaps.{find_amount_gaps, backfill_amount}
use stock_platform.Repair.Gaps.Untouched.{backfill_amount-Untouched}
use stock_platform.Tests.Klines.{bar, bars, store}

-- A close of 10 on six days of seven.
abbrev quotes : List (Quote Fixed)
quotes = quotes_of (
    bar 1 90 0
    ∷ bar 2 100 0
    ∷ bar 3 100 0
    ∷ bar 4 100 0
    ∷ bar 5 100 0
    ∷ bar 6 100 0
    ∷ bar 7 101 1
    ∷ [])

one_segment : frozen_segments quotes ≡ record { start = 1; end = 5; bars = 5 } ∷ []
unfolding frozen_segments
one_segment = refl

frozen_segments-IsFrozen_example :
    All (IsFrozen quotes) (frozen_segments quotes)
    × ((a n : ℕ)
        → freeze_run_len ≤ n + 1
        → IsMaximal (flag_at (flat_flags none quotes)) (a + 1) n
        → has_segment a (a + n) (n + 1) (frozen_segments quotes) ≡ true)
frozen_segments-IsFrozen_example = frozen_segments-IsFrozen quotes

-- Every fetch fails.
abbrev settings : Settings
settings = record { kline_source = legacy; kline_rebuild_enabled = true }

abbrev no_fetch : Code → Date × Date → Fetched Fixed
no_fetch c w = record { quotes = none; raw_and_qfq = none }

abbrev findings : Dict (List Span)
findings =
    (600000, record { start = 3; end = 9; bars = 5 } ∷ [])
    ∷ (600036, record { start = 4; end = 8; bars = 5 } ∷ [])
    ∷ []

abbrev stores : Stores Fixed
stores = record { daily = bars; raw = store }

repair_findings-Tried_example :
    Tried (keys findings) (repair_findings settings no_fetch findings stores).1
repair_findings-Tried_example = repair_findings-Tried settings no_fetch findings stores

-- The bars of the days 1 to 4 lack the amount, and that of day 40 has one.
abbrev with_amount : Bar Fixed → Bar Fixed
with_amount b = record b { amount = some (fixed 7) }

abbrev table : List (Bar Fixed)
table = with_amount (bar 40 100 0) ∷ bars

abbrev refetched : Code → Date × Date → Option (List (Bar Fixed) × List (Bar Fixed))
refetched c w = some (
  record (with_amount (bar 2 77 0)) { stock_code = c }
      ∷ record (with_amount (bar 40 88 0)) { stock_code = c }
      ∷ [],
  [],
)

gap_filled : (backfill_amount 200 refetched table).1.repaired ≡ 1
unfolding backfill_amount upsert_kline_rows validate_daily_row
gap_filled = refl

backfill_amount-Untouched_example :
    first (is_bar 600000 40) (backfill_amount 200 refetched table).0
    ≡ first (is_bar 600000 40) table
unfolding find_amount_gaps
backfill_amount-Untouched_example =
    backfill_amount-Untouched 600000 40 200 refetched table refl (λ c w. (refl, (refl, tt)))
