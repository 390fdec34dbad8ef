-- ===== src/Paper/Tables.antt =====
-- The rows of the paper-trading tables (backend/app/models/paper.py), of the quality tables
-- (backend/app/models/quality.py), and the database as a record of tables in insertion order.
use stock_platform.Prelude.{ℕ, ◌==◌, Option, List, [], ◌∷◌, if◌then◌else◌}
use stock_platform.Prelude.Int.{ℤ}
use stock_platform.Calendar.{Date}
use stock_platform.Cost.{CostParams}
use stock_platform.Execution.{Code, Side, Reason, DailyPrice, TradeStatus}

pub data AccountStatus : Type 0 where
  active paused stopped : AccountStatus

pub data OrderStatus : Type 0 where
  pending filled skipped cancelled : OrderStatus

-- The values of `freq`: "W", a text that `int()` reads, and any other text.
pub data Freq : Type 0 where
  weekly monthly : Freq
  every : ℤ → Freq
  other_text : Freq

-- The keys of `DEFAULT_CONFIG` that the tick reads by itself. A cost dict stands for the fee
-- schedule that it fills in.
pub record Config (F : Type 0) : Type 0 where
  pub top_n : ℕ
  pub freq : Freq
  pub initial_cash : F
  pub benchmark : ℕ
  pub cost : Option (CostParams F)
  pub rebalance_tol : Option F
  pub start : Date

pub record Account (F : Type 0) : Type 0 where
  pub id : ℕ
  pub name : ℕ
  pub config : Config F
  pub initial_cash : F
  pub cash : F
  pub status : AccountStatus

pub record Order (F : Type 0) : Type 0 where
  pub id : ℕ
  pub account_id : ℕ
  pub signal_date : Date
  pub exec_date : Date
  pub stock_code : Code
  pub side : Side
  pub target_weight : F
  pub shares : Option ℤ
  pub status : OrderStatus
  pub fail_reason : Option Reason
  pub filled_trade_id : Option ℕ

pub record Trade (F : Type 0) : Type 0 where
  pub id : ℕ
  pub account_id : ℕ
  pub order_id : ℕ
  pub trade_date : Date
  pub stock_code : Code
  pub side : Side
  pub price : F
  pub shares : ℕ
  pub amount : F
  pub commission : F
  pub stamp_duty : F
  pub transfer_fee : F

pub record Position (F : Type 0) : Type 0 where
  pub account_id : ℕ
  pub trade_date : Date
  pub stock_code : Code
  pub shares : ℕ
  pub close_price : F
  pub market_value : F

pub record Nav (F : Type 0) : Type 0 where
  pub account_id : ℕ
  pub trade_date : Date
  pub cash : F
  pub market_value : F
  pub total_asset : F
  pub nav : F
  pub daily_ret : Option F
  pub benchmark_close : Option F
  pub drawdown : Option F

-- The metrics of the `paper_health` check. A check's `metric_name` is the metric and the account.
pub data Metric : Type 0 where
  drawdown turnover sell_stuck corporate_action data_incomplete signal_empty : Metric

pub data CheckStatus : Type 0 where
  pass warn fail : CheckStatus

pub record Check (F : Type 0) : Type 0 where
  pub check_date : Date
  pub metric : Metric
  pub account_id : ℕ
  pub metric_value : F
  pub status : CheckStatus

pub record Rule (F : Type 0) : Type 0 where
  pub metric : Metric
  pub warn_threshold : F
  pub fail_threshold : F

pub record IndexQuote (F : Type 0) : Type 0 where
  pub index_code : ℕ
  pub trade_date : Date
  pub close_price : Option F

-- `sa_adjust_factor` and `sa_kline_daily` (backend/app/models/kline.py).
pub record AdjustFactor (F : Type 0) : Type 0 where
  pub stock_code : Code
  pub trade_date : Date
  pub adj_factor : F

pub record KlineDaily (F : Type 0) : Type 0 where
  pub stock_code : Code
  pub trade_date : Date
  pub close_price : Option F

-- `next_…` are the autoincrement counters.
pub record Db (F : Type 0) : Type 0 where
  pub accounts : List (Account F)
  pub next_account : ℕ
  pub orders : List (Order F)
  pub next_order : ℕ
  pub trades : List (Trade F)
  pub next_trade : ℕ
  pub positions : List (Position F)
  pub navs : List (Nav F)
  pub checks : List (Check F)
  pub rules : List (Rule F)
  pub prices : List (DailyPrice F)
  pub trade_status : List TradeStatus
  pub index_quotes : List (IndexQuote F)
  pub adjust_factors : List (AdjustFactor F)
  pub klines : List (KlineDaily F)

module _ {F : Type 0} where
  -- The row that a changed object is written back to.
  abbrev pub set_order : Order F → List (Order F) → List (Order F)
  set_order o [] = []
  set_order o (p ∷ orders) =
      let rest = set_order o orders in if o.id == p.id then o ∷ orders else p ∷ rest

  abbrev pub set_account : Account F → List (Account F) → List (Account F)
  set_account a [] = []
  set_account a (b ∷ accounts) =
      let rest = set_account a accounts in if a.id == b.id then a ∷ accounts else b ∷ rest
