-- ===== src/Paper/Match.antt =====
-- Segment ① of the daily tick, the match of pending orders at today's open: `paper_tick` of
-- backend/app/services/paper_service.py. One function handles one order, as the loop bodies do.
use stock_platform.Prelude.{
  ℕ, ◌+◌, ◌==◌, true, Option, none, some, List, [], ◌∷◌, ◌++◌, if◌then◌else◌,
}
use stock_platform.Prelude.Dict.{Dict, lookup, get_or, insert, erase}
use stock_platform.Prelude.Result.{Result, ok, err, type_error, ◌>>=◌, each}
use stock_platform.Calendar.{Date, next_weekday}
use stock_platform.Cost.{CostParams, buy_cost}
use stock_platform.Float.{Float, ◌⊕◌, ◌⊖◌, ◌⊗◌, ◌<?◌, nought}
use stock_platform.Execution.{
  Side, buy, sell, fill, Reason, no_position, insufficient_cash, below_board_lot, Quotes,
  slot_value, fill_price, board_lot_shares, cost_breakdown, match_fill,
}
use stock_platform.Paper.Tables.{Order, Trade, OrderStatus, filled, skipped, cancelled, set_order}

-- What the loops read: the account, the day, its fee schedule and the day's market.
pub record Market (F : Type 0) : Type 0 where
  pub account_id : ℕ
  pub day : Date
  pub params : CostParams F
  pub quotes : Quotes F

-- What the loops change.
pub record Book (F : Type 0) : Type 0 where
  pub cash : F
  pub holdings : Dict ℕ
  pub orders : List (Order F)
  pub trades : List (Trade F)
  pub next_trade : ℕ
  pub traded_value : F
  pub fills : ℕ

module _ {F : Type 0} ⦃fl : Float F⦄ where
  abbrev pub open_of : Market F → Order F → Option F
  open_of m o = lookup o.stock_code m.quotes.opens

  -- `order.status, order.filled_trade_id = "filled", int(trade.id)`
  abbrev pub mark_filled : ℕ → Order F → Order F
  mark_filled trade o = record o { status = filled; filled_trade_id = some trade }

  abbrev pub mark_failed : OrderStatus → Option Reason → Order F → Order F
  mark_failed s reason o = record o { status = s; fail_reason = reason }

  abbrev pub deferred : Market F → Option Reason → Order F → Order F
  deferred m reason o = record o { exec_date = next_weekday m.day; fail_reason = reason }

  abbrev pub with_order : Order F → Book F → Book F
  with_order o b = record b { orders = set_order o b.orders }

  abbrev pub trade_of : Market F → Order F → ℕ → Side → F → ℕ → F → F → F → F → Trade F
  trade_of m o id side px shares amount commission stamp_duty transfer_fee = record {
    id = id;
    account_id = m.account_id;
    order_id = o.id;
    trade_date = m.day;
    stock_code = o.stock_code;
    side = side;
    price = fl.round px 4;
    shares = shares;
    amount = fl.round amount 2;
    commission = fl.round commission 6;
    stamp_duty = fl.round stamp_duty 6;
    transfer_fee = fl.round transfer_fee 6;
  }

  -- The book after a fill: the trade is added and the order is marked.
  abbrev pub settle : Order F → Trade F → F → Dict ℕ → F → Book F → Book F
  settle o t cash holdings amount b = record {
    cash = cash;
    holdings = holdings;
    orders = set_order (mark_filled t.id o) b.orders;
    trades = b.trades ++ (t ∷ []);
    next_trade = b.next_trade + 1;
    traded_value = b.traded_value ⊕ amount;
    fills = b.fills + 1;
  }

  -- The sell loop past the `continue` of a deferred order. A missing price times a float raises.
  unfoldable pub sell_fill : Market F → Order F → Option F → Book F → Result (Book F)
  sell_fill m o none b = err type_error
  sell_fill m o (some open_price) b = do
    px ← fill_price open_price sell m.params.slippage_rate
    let shares = get_or 0 (lookup o.stock_code b.holdings)
    let left = erase o.stock_code b.holdings
    let amount = fl.of_ℕ shares ⊗ px
    fees ← cost_breakdown sell amount m.params
    let t =
        trade_of m o b.next_trade sell px shares amount fees.commission fees.stamp_duty
          fees.transfer_fee
    let cancel =
        with_order (mark_failed cancelled (some no_position) o) (record b { holdings = left })
    ok (if shares == 0 then cancel else settle o t (b.cash ⊕ (amount ⊖ fees.total)) left amount b)

  unfoldable pub sell_order : Market F → Order F → Book F → Result (Book F)
  sell_order m o b = do
    decision ← match_fill sell (open_of m o) (get_or true (lookup o.stock_code m.quotes.sell_ok))
    elim decision.0 [
      | fill ↦ sell_fill m o (open_of m o) b
      | _ ↦ ok (with_order (deferred m decision.1 o) b)
    ]

  -- The buy loop past the `continue` of a blocked order.
  unfoldable pub buy_fill : Market F → F → Order F → Option F → Book F → Result (Book F)
  buy_fill m per_target o none b = err type_error
  buy_fill m per_target o (some open_price) b = do
    px ← fill_price open_price buy m.params.slippage_rate
    shares ← board_lot_shares per_target (some px)
    let amount = fl.of_ℕ shares ⊗ px
    let fee = buy_cost m.params amount
    fees ← cost_breakdown buy amount m.params
    let t = trade_of m o b.next_trade buy px shares amount fees.commission nought fees.transfer_fee
    let bought =
        settle o t (b.cash ⊖ (amount ⊕ fee)) (insert o.stock_code shares b.holdings) amount b
    ok (
        if shares == 0
        then with_order (mark_failed skipped (some below_board_lot) o) b
        else if b.cash <? amount ⊕ fee
        then with_order (mark_failed skipped (some insufficient_cash) o) b
        else bought)

  unfoldable pub buy_order : Market F → F → Order F → Book F → Result (Book F)
  buy_order m per_target o b = do
    decision ← match_fill buy (open_of m o) (get_or true (lookup o.stock_code m.quotes.buy_ok))
    elim decision.0 [
      | fill ↦ buy_fill m per_target o (open_of m o) b
      | _ ↦ ok (with_order (mark_failed skipped decision.1 o) b)
    ]

  unfoldable pub sell_orders : Market F → List (Order F) → Book F → Result (Book F)
  unfolding each
  sell_orders m = each (sell_order m)

  unfoldable pub buy_orders : Market F → F → List (Order F) → Book F → Result (Book F)
  unfolding each
  buy_orders m per_target = each (buy_order m per_target)

  -- Both loops: the sells, the slot value of the book that they leave, and the buys.
  unfoldable pub match_orders :
      Market F → ℕ → List (Order F) → List (Order F) → Book F → Result (Book F)
  match_orders m top_n sells buys b = do
    sold ← sell_orders m sells b
    per_target ← slot_value sold.cash m.quotes.opens sold.holdings top_n
    buy_orders m per_target buys sold
