-- ===== src/Execution/Tables.antt =====
-- The rows of `daily_prices` (backend/app/models/stock.py) and `sa_daily_trade_status`
-- (backend/app/models/kline.py), with the columns that the engine reads.
use stock_platform.Prelude.{ℕ, Bool, Option}
use stock_platform.Prelude.Dict.{Dict}
use stock_platform.Calendar.{Date}

abbrev pub Code : Type 0
Code = ℕ

pub record DailyPrice (F : Type 0) : Type 0 where
  pub stock_code : Code
  pub trade_date : Date
  pub open_price : Option F
  pub close_price : Option F

pub record TradeStatus : Type 0 where
  pub stock_code : Code
  pub trade_date : Date
  pub buy_tradable : ℕ
  pub sell_tradable : ℕ

-- What the matching loops fetch for one day.
pub record Quotes (F : Type 0) : Type 0 where
  pub opens : Dict F
  pub sell_ok : Dict Bool
  pub buy_ok : Dict Bool
