-- ===== src/Tests/Matching.antt =====
-- One match of pending orders, in the paper engine and in the backtest.
use stock_platform.Prelude.{◌≡◌, refl, some, arith}
use stock_platform.Prelude.Dict.{lookup}
use stock_platform.Prelude.Result.{Result, ok, err}
use stock_platform.Float.{Fixed, fixed, fixed_float, Fixed-IsIeee, NotNeg, divide}
use stock_platform.Cost.{buy_cost}
use stock_platform.Execution.{buy, match_fill, fill_price, cost_breakdown, board_lot_shares}
use stock_platform.Paper.Match.{
  Book, match_orders, sell_orders, buy_orders, buy_fill, sell_order, sell_fill, buy_order,
}
use stock_platform.Paper.Solvency.{sell_orders_total, buy_orders-NotNeg}
use stock_platform.Paper.Rows.{Resolves, sell_done, buy_done}
use stock_platform.Paper.Resolution.{sell_orders-Resolves, buy_orders-Resolves}
use stock_platform.Backtest.Match.{rebalance}
use stock_platform.Backtest.Outcome.{SameOutcome}
use stock_platform.Backtest.Agreement.{match_orders-Agree}
use stock_platform.Tests.Data.{market, params, quotes, order, sells, buys, book, portfolio, targets}

abbrev result_of : Book Fixed → Result (Book Fixed) → Book Fixed
result_of b r = elim r [ ok b' ↦ b' | err _ ↦ b ]

abbrev slot : Fixed
slot = fixed 2500

match_orders-Agree_example :
    SameOutcome
      (match_orders market 2 sells buys book)
      (rebalance params quotes 2 targets portfolio)
match_orders-Agree_example =
    match_orders-Agree market 2 targets sells buys book portfolio (omega arith, refl, tt)
      (refl, (refl, tt)) refl refl (refl, refl)

sell_orders_total_example : (b' : Book Fixed) × (sell_orders market sells book ≡ ok b')
sell_orders_total_example = sell_orders_total market sells book

rich : Book Fixed
rich = record book { cash = fixed 9000 }

buy_orders-NotNeg_example : NotNeg (result_of rich (buy_orders market slot buys rich)).cash
unfolding buy_orders buy_order buy_fill match_fill fill_price cost_breakdown board_lot_shares divide
    rich
buy_orders-NotNeg_example = buy_orders-NotNeg market Fixed-IsIeee slot buys rich refl refl

buy_orders-Resolves_example :
    Resolves buy_done buys rich (result_of rich (buy_orders market slot buys rich))
unfolding buy_orders buy_order buy_fill match_fill fill_price cost_breakdown board_lot_shares divide
    rich
buy_orders-Resolves_example = buy_orders-Resolves market slot buys rich (refl, (refl, tt)) refl

sell_orders-Resolves_example :
    Resolves (sell_done market) sells book (result_of book (sell_orders market sells book))
unfolding sell_orders sell_order sell_fill match_fill fill_price cost_breakdown
sell_orders-Resolves_example = sell_orders-Resolves market sells book (refl, tt) refl

-- 500 shares of 600000 are held, and a buy of it is filled: the holding is then the 200 bought.
overwritten : Result (Book Fixed)
overwritten = buy_fill market slot (order 4 buy 600000) (some (fixed 10)) rich

overwritten_holding : lookup 600000 (result_of rich overwritten).holdings ≡ some 200
unfolding overwritten buy_fill fill_price cost_breakdown board_lot_shares divide buy_cost rich
overwritten_holding = refl
