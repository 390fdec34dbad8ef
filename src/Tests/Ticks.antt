-- ===== src/Tests/Ticks.antt =====
-- Whole ticks, the tripwire, the calendar and the fees.
use stock_platform.Prelude.{ℕ, ◌-◌, ◌≡◌, refl, none, some, [], ◌∷◌}
use stock_platform.Prelude.Dict.{Dict}
use stock_platform.Prelude.Result.{ok, ok_of_is_ok}
use stock_platform.Calendar.{Date, next_weekday}
use stock_platform.Cost.{sell_cost, buy_cost}
use stock_platform.Float.{Fixed, fixed, fixed_float, divide}
use stock_platform.Execution.{
  DailyPrice, match_fill, cost_breakdown, fetch_quotes, slot_value, board_lot_shares, fill_price,
}
use stock_platform.Paper.{Db, corporate_action}
use stock_platform.Paper.Match.{
  match_orders, sell_orders, sell_order, sell_fill, buy_orders, buy_order, buy_fill,
}
use stock_platform.Paper.Reads.{
  positions_latest, ensure_rules, closes_on, benchmark_close, check_row, flag,
}
use stock_platform.Paper.Orders.{signal_pass, create_orders, data_is_incomplete}
use stock_platform.Paper.Analytics.{diff_orders, buy_shares}
use stock_platform.Paper.Calendar.{qualifies_rebalance}
use stock_platform.Paper.Tick.{
  Report, paper_tick, already_done, match_pending, stuck_checks, value_day, tripped_checks,
}
use stock_platform.Paper.Daily.{paper_tick_idempotent}
use stock_platform.Paper.Tripwire.{corporate_action_alerts}
use stock_platform.Paper.ExDay.{tripped_checks_past}
use stock_platform.Tests.Data.{today, book, db, signals}

first_tick : (v : Db Fixed × Report Fixed) × (paper_tick signals db 1 today ≡ ok v)
unfolding paper_tick match_pending match_orders sell_orders sell_order sell_fill buy_orders
    buy_order buy_fill fetch_quotes slot_value match_fill fill_price cost_breakdown board_lot_shares
    divide positions_latest ensure_rules corporate_action_alerts closes_on signal_pass create_orders
    diff_orders buy_shares qualifies_rebalance data_is_incomplete stuck_checks value_day
    benchmark_close check_row buy_cost sell_cost next_weekday
first_tick = ok_of_is_ok _ refl

-- The first tick of the day returns, and a second one changes nothing.
paper_tick_idempotent_example :
    paper_tick signals first_tick.0.0 1 today ≡ ok (first_tick.0.0, already_done)
paper_tick_idempotent_example =
    paper_tick_idempotent signals signals db 1 today refl refl first_tick.1

abbrev close_on : Date → ℕ → DailyPrice Fixed
close_on d p = record {
  stock_code = 600000;
  trade_date = d;
  open_price = none;
  close_price = some (fixed p);
}

-- An ex-day: the factor doubles and the raw close halves, so that the adjusted close stays.
abbrev ex_day : Db Fixed
ex_day = record db {
  prices = close_on (today - 1) 10 ∷ close_on today 10 ∷ [];
  adjust_factors =
      record { stock_code = 600000; trade_date = today - 1; adj_factor = fixed 1 }
      ∷ record { stock_code = 600000; trade_date = today; adj_factor = fixed 2 }
      ∷ [];
  klines =
      record { stock_code = 600000; trade_date = today - 1; close_price = some (fixed 10) }
      ∷ record { stock_code = 600000; trade_date = today; close_price = some (fixed 5) }
      ∷ [];
}

abbrev snap : Dict (ℕ × Fixed)
snap = (600000, (500, fixed 10)) ∷ []

-- The same ex-day with the day's adjusted close at 4 in place of 10.
tripped_checks_past_example :
    tripped_checks
      (record ex_day { prices = close_on (today - 1) 10 ∷ close_on today 4 ∷ [] })
      1
      today
      snap
      book
    ≡ tripped_checks ex_day 1 today snap book
tripped_checks_past_example =
    tripped_checks_past ex_day (close_on (today - 1) 10 ∷ close_on today 4 ∷ []) 1 today snap book
      refl

-- The correctly adjusted ex-day trips the wire.
ex_day_trips : tripped_checks ex_day 1 today snap book ≡ ok (flag 1 today corporate_action ∷ [])
unfolding corporate_action_alerts divide
ex_day_trips = refl
