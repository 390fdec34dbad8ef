-- ===== src/Universe.antt =====
-- The daily snapshot of the stock pool: backend/app/data/sync_pool.py, with `stock_pool` of
-- backend/app/models/stock.py. A name or an industry is a number; the rounding of the columns is left
-- out, and the whole-market table that the provider returns is an argument.
pub mod Snapshot
use stock_platform.Prelude.{
  ℕ, ◌==◌, ◌&&◌, Bool, true, false, ltb, if◌then◌else◌, not, Option, none, some, List, [], ◌∷◌,
  ◌++◌, keep, length,
}
use stock_platform.Prelude.Dict.{Dict, lookup, of_rows}
use stock_platform.Prelude.Sort.{last_on}
use stock_platform.Float.{Float, ◌≤?◌}
use stock_platform.Calendar.{Date}
use stock_platform.Execution.{Code}
use stock_platform.Sources.Bars.{Exchange, tencent_prefix}

-- A row of the spot table.
pub record Spot (F : Type 0) : Type 0 where
  pub stock_code : Option Code
  pub stock_name : Option ℕ
  pub close : Option F
  pub pct_change : Option F
  pub total_mv : Option F
  pub circ_mv : Option F
  pub turnover : Option F
  pub pe : Option F
  pub pb : Option F

pub record PoolRow (F : Type 0) : Type 0 where
  pub pool_name : ℕ
  pub trade_date : Date
  pub stock_code : Code
  pub stock_name : Option ℕ
  pub exchange : Exchange
  pub industry : Option ℕ
  pub close : Option F
  pub pct_change : Option F
  pub total_mv : Option F
  pub circ_mv : Option F
  pub turnover : Option F
  pub pe : Option F
  pub pb : Option F

module _ {F : Type 0} where
  abbrev has_industry : PoolRow F → Bool
  has_industry r = elim r.industry [ none ↦ false | some _ ↦ true ]

  abbrev industry_rows : List (PoolRow F) → Dict (Option ℕ)
  industry_rows [] = []
  industry_rows (r ∷ rows) = (r.stock_code, r.industry) ∷ industry_rows rows

  abbrev row_date : PoolRow F → Date
  row_date r = r.trade_date

  abbrev pub is_earlier : Date → PoolRow F → Bool
  is_earlier before r = ltb r.trade_date before

  abbrev industries_of : List (PoolRow F) → Dict (Option ℕ)
  industries_of earlier = elim (last_on row_date has_industry earlier) [
    | none ↦ []
    | some newest ↦
        of_rows
          (industry_rows (keep (λ (r : PoolRow F). r.trade_date == newest.trade_date) earlier))
  ]

  -- From the latest snapshot before the day that has an industry.
  unfoldable pub prior_industries : Date → List (PoolRow F) → Dict (Option ℕ)
  prior_industries before table = industries_of (keep (is_earlier before) table)

  abbrev pub is_replaced : ℕ → Date → PoolRow F → Bool
  is_replaced pool_name trade_date r = r.pool_name == pool_name && r.trade_date == trade_date

abbrev industry_for : Code → Dict (Option ℕ) → Option ℕ
industry_for code industries = elim (lookup code industries) [ none ↦ none | some i ↦ i ]

module _ {F : Type 0} ⦃fl : Float F⦄ where
  -- No NaN goes into a column.
  abbrev dec : Option F → Option F
  dec none = none
  dec (some x) = if x ≤? x then some x else none

  unfoldable pub pool_row : ℕ → Date → Dict (Option ℕ) → Code → Spot F → PoolRow F
  unfolding tencent_prefix
  pool_row pool_name trade_date industries code s = record {
    pool_name = pool_name;
    trade_date = trade_date;
    stock_code = code;
    stock_name = s.stock_name;
    exchange = tencent_prefix code;
    industry = industry_for code industries;
    close = dec s.close;
    pct_change = dec s.pct_change;
    total_mv = dec s.total_mv;
    circ_mv = dec s.circ_mv;
    turnover = dec s.turnover;
    pe = dec s.pe;
    pb = dec s.pb;
  }

  abbrev pub add_row :
      ℕ → Date → Dict (Option ℕ) → Option Code → Spot F → List (PoolRow F) → List (PoolRow F)
  add_row pool_name trade_date industries none s rows = rows
  add_row pool_name trade_date industries (some code) s rows =
      pool_row pool_name trade_date industries code s ∷ rows

  -- A spot without a code is passed over.
  abbrev pub rows_of : ℕ → Date → Dict (Option ℕ) → List (Spot F) → List (PoolRow F)
  rows_of pool_name trade_date industries [] = []
  rows_of pool_name trade_date industries (s ∷ spots) =
      add_row pool_name trade_date industries s.stock_code s
        (rows_of pool_name trade_date industries spots)

  -- The day's rows of the pool are replaced, unless there are none to write.
  abbrev pub replace_rows : ℕ → Date → List (PoolRow F) → List (PoolRow F) → List (PoolRow F) × ℕ
  replace_rows pool_name trade_date [] table = (table, 0)
  replace_rows pool_name trade_date (r ∷ rows) table = (
    keep (λ old. not (is_replaced pool_name trade_date old)) table ++ (r ∷ rows),
    length (r ∷ rows),
  )

  unfoldable pub write_pool_snapshot :
      List (Spot F) → ℕ → Date → List (PoolRow F) → List (PoolRow F) × ℕ
  unfolding prior_industries pool_row
  write_pool_snapshot spots pool_name trade_date table =
      replace_rows pool_name trade_date
        (rows_of pool_name trade_date (prior_industries trade_date table) spots) table

  -- A fetch without rows writes nothing.
  unfoldable pub sync_pool_snapshot :
      List (Spot F) → ℕ → Date → List (PoolRow F) → List (PoolRow F) × ℕ
  unfolding write_pool_snapshot
  sync_pool_snapshot [] pool_name trade_date table = (table, 0)
  sync_pool_snapshot (s ∷ spots) pool_name trade_date table =
      write_pool_snapshot (s ∷ spots) pool_name trade_date table
