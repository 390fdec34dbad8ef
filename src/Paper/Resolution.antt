-- ===== src/Paper/Resolution.antt =====
-- What the match does to the order table: backend/app/services/paper_service.py. Each loop decides
-- exactly the orders it is given.
use stock_platform.Prelude.{ℕ, ◌≡◌, ◌==◌, true, Option, none, some, List, arith, if◌then◌else◌}
use stock_platform.Prelude.Result.{Result, ok, err, Holds, Holds-at, Holds-map}
use stock_platform.Prelude.Dict.{lookup, get_or}
use stock_platform.Cost.{buy_cost}
use stock_platform.Float.{Float, ◌⊕◌, ◌⊗◌, ◌<?◌, unit}
use stock_platform.Execution.{
  no_price, no_open_price, sell_blocked, buy_blocked, no_position, below_board_lot,
  insufficient_cash, fill_price, match_fill, cost_breakdown, board_lot_shares,
}
use stock_platform.Paper.Tables.{Order, pending, skipped, cancelled, set_order}
use stock_platform.Paper.Rows.{
  sell_done, buy_done, Replaces, Replaces-of_set, Resolves, ArePending, each-Resolves,
}
use stock_platform.Paper.Match.{
  open_of, deferred, mark_failed, mark_filled, Market, Book, sell_fill, sell_order, sell_orders,
  buy_fill, buy_order, buy_orders,
}

module _ {F : Type 0} ⦃fl : Float F⦄ (m : Market F) where
  -- The order that a round of the sell loop writes back.
  abbrev resolve_sell : Order F → Book F → Order F
  resolve_sell o b =
      if no_price (open_of m o)
      then deferred m (some no_open_price) o
      else if get_or true (lookup o.stock_code m.quotes.sell_ok)
      then (if get_or 0 (lookup o.stock_code b.holdings) == 0
          then mark_failed cancelled (some no_position) o
          else mark_filled b.next_trade o)
      else deferred m (some sell_blocked) o

  resolve_sell_lem :
      (o : Order F) (b : Book F)
      → o.status ≡ pending
      → ((resolve_sell o b).id ≡ o.id) × (sell_done m (some (resolve_sell o b)) ≡ true)
  resolve_sell_lem o b h = ground arith

  sell_order-resolve_sell :
      (o : Order F) (b : Book F)
      → Holds
          (λ (b' : Book F). b'.orders ≡ set_order (resolve_sell o b) b.orders)
          (sell_order m o b)
  unfolding sell_order match_fill sell_fill fill_price cost_breakdown
  sell_order-resolve_sell o b = ground arith

  sell_order-Replaces :
      (o : Order F) (b : Book F)
      → o.status ≡ pending
      → Holds (Replaces (sell_done m) o b) (sell_order m o b)
  sell_order-Replaces o b h =
      let (same, done) = resolve_sell_lem o b h in
      Holds-map _ (sell_order-resolve_sell o b) (λ b' e. Replaces-of_set _ o _ b b' same done e)

  module _ (per_target : F) where
    abbrev lots : F → Result ℕ
    lots p = board_lot_shares per_target (some (p ⊗ (unit ⊕ m.params.slippage_rate)))

    abbrev cost_of : F → ℕ → F
    cost_of p n =
        let amount = fl.of_ℕ n ⊗ (p ⊗ (unit ⊕ m.params.slippage_rate)) in
        amount ⊕ buy_cost m.params amount

    -- The order that a fillable buy becomes at an open price, if its size is known.
    abbrev resolve_size : Order F → Book F → F → Result ℕ → Order F
    resolve_size o b p (err e) = mark_failed skipped none o
    resolve_size o b p (ok n) =
        if n == 0
        then mark_failed skipped (some below_board_lot) o
        else if b.cash <? cost_of p n
        then mark_failed skipped (some insufficient_cash) o
        else mark_filled b.next_trade o

    abbrev resolve_fillable : Order F → Book F → Option F → Order F
    resolve_fillable o b none = mark_failed skipped none o
    resolve_fillable o b (some p) = resolve_size o b p (lots p)

    -- The order that a round of the buy loop writes back.
    abbrev resolve_buy : Order F → Book F → Order F
    resolve_buy o b =
        if no_price (open_of m o)
        then mark_failed skipped (some no_open_price) o
        else if get_or true (lookup o.stock_code m.quotes.buy_ok)
        then resolve_fillable o b (open_of m o)
        else mark_failed skipped (some buy_blocked) o

    resolve_buy_lem :
        (o : Order F) (b : Book F)
        → ((resolve_buy o b).id ≡ o.id) × (buy_done (some (resolve_buy o b)) ≡ true)
    resolve_buy_lem o b = ground arith

    buy_order-resolve_buy :
        (o : Order F) (b : Book F)
        → Holds
            (λ (b' : Book F). b'.orders ≡ set_order (resolve_buy o b) b.orders)
            (buy_order m per_target o b)
    unfolding buy_order match_fill buy_fill fill_price cost_breakdown
    buy_order-resolve_buy o b = ground arith

    buy_order-Replaces :
        (o : Order F) (b : Book F) → Holds (Replaces buy_done o b) (buy_order m per_target o b)
    buy_order-Replaces o b =
        let (same, done) = resolve_buy_lem o b in
        Holds-map _ (buy_order-resolve_buy o b) (λ b' e. Replaces-of_set _ o _ b b' same done e)

    -- After the buy loop every pending buy that it was given and that has a row is filled or
    -- skipped, so that no buy stays pending; every other row is as it was.
    pub buy_orders-Resolves :
        (os : List (Order F)) (b : Book F) {b' : Book F}
        → ArePending os
        → buy_orders m per_target os b ≡ ok b'
        → Resolves buy_done os b b'
    unfolding buy_orders
    buy_orders-Resolves os b p e =
        Holds-at _ e (
          each-Resolves buy_done (buy_order m per_target) os b (λ o b1 _. buy_order-Replaces o b1)
            p)

  -- After the sell loop every pending sell that it was given and that has a row is filled, or
  -- cancelled, or pending again for the next weekday; every other row is as it was.
  pub sell_orders-Resolves :
      (os : List (Order F)) (b : Book F) {b' : Book F}
      → ArePending os
      → sell_orders m os b ≡ ok b'
      → Resolves (sell_done m) os b b'
  unfolding sell_orders
  sell_orders-Resolves os b p e =
      Holds-at _ e (each-Resolves (sell_done m) (sell_order m) os b sell_order-Replaces p)
