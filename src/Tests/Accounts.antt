-- ===== src/Tests/Accounts.antt =====
-- The curve of a paper account at concrete inputs over `Fixed` decimals.
use stock_platform.Prelude.{◌≡◌, refl, none, some, [], ◌∷◌, ℕ, Option}
use stock_platform.Prelude.Result.{ok, err, type_error, ok_of_is_ok}
use stock_platform.Calendar.{Date}
use stock_platform.Float.{Fixed, fixed, fixed_float, divide}
use stock_platform.Execution.{buy}
use stock_platform.Paper.{Db, Trade, Nav}
use stock_platform.Paper.Curve.{curve, nav_history, curve, attribution}
use stock_platform.Paper.Analytics.Drift.{Drift, drift_compare, by_week}
use stock_platform.Tests.Data.{today, db}

abbrev trade : ℕ → Trade Fixed
trade id = record {
  id = id;
  account_id = 1;
  order_id = id;
  trade_date = today;
  stock_code = 600000;
  side = buy;
  price = fixed 10;
  shares = 100;
  amount = fixed 1000;
  commission = fixed 5;
  stamp_duty = fixed 0;
  transfer_fee = fixed 1;
}

abbrev nav_on : Date → Option Fixed → Nav Fixed
nav_on d close = record {
  account_id = 1;
  trade_date = d;
  cash = fixed 100;
  market_value = fixed 900;
  total_asset = fixed 1000;
  nav = fixed 1;
  daily_ret = none;
  benchmark_close = close;
  drawdown = none;
}

abbrev traded : Db Fixed
traded = record db {
  trades = trade 1 ∷ [];
  navs = nav_on 1 (some (fixed 3000)) ∷ nav_on 2 (some (fixed 3100)) ∷ [];
}

-- Where the last day has no benchmark close, the curve raises.
no_benchmark :
    nav_history
      (record db { navs = nav_on 1 (some (fixed 3000)) ∷ nav_on 2 none ∷ [] })
      1
      none
      today
    ≡ err type_error
unfolding nav_history curve attribution
no_benchmark = refl

-- Two weeks, the second with two days that both curves have.
two_weeks :
    (d : Drift Fixed) × (drift_compare
        ((739868, fixed 10) ∷ (739873, fixed 10) ∷ (739874, fixed 12) ∷ (739875, fixed 9) ∷ [])
        ((739868, fixed 20) ∷ (739873, fixed 20) ∷ (739874, fixed 22) ∷ [])
      ≡ ok d)
unfolding drift_compare by_week divide
two_weeks = ok_of_is_ok _ refl
