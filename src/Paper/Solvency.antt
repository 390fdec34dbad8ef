-- ===== src/Paper/Solvency.antt =====
-- The match never raises on the sell side, and its buys never overdraw the account.
use stock_platform.Prelude.{ℕ, ◌≡◌, refl, true, Option, none, some, List, [], ◌∷◌, arith}
use stock_platform.Prelude.Result.{Result, Result-cases, is_ok, ok_of_is_ok, ok, >>=-parts}
use stock_platform.Prelude.{inl, inr}
use stock_platform.Cost.{buy_cost}
use stock_platform.Float.{Float, IsIeee, NotNeg, ◌⊕◌, ◌⊗◌, unit}
use stock_platform.Execution.{fill_price, match_fill, cost_breakdown, board_lot_shares}
use stock_platform.Paper.Tables.{Order}
use stock_platform.Paper.Match.{
  Market, Book, open_of, sell_fill, sell_order, sell_orders, buy_fill, buy_order, buy_orders,
}

module _ {F : Type 0} ⦃fl : Float F⦄ (m : Market F) where
  sell_order-is_ok : (o : Order F) (b : Book F) → is_ok (sell_order m o b) ≡ true
  unfolding sell_order sell_fill match_fill fill_price cost_breakdown
  sell_order-is_ok o b = ground arith

  -- The sell loop never raises: whatever the quotes and the orders are, it ends with a book.
  pub sell_orders_total :
      (os : List (Order F)) (b : Book F) → (b' : Book F) × (sell_orders m os b ≡ ok b')
  unfolding sell_orders
  sell_orders_total [] b = (b, refl)
  sell_orders_total (o ∷ os) b =
      let (b', e) = ok_of_is_ok _ (sell_order-is_ok o b) in rw e (sell_orders_total os b')

  module _ (laws : IsIeee F) (per_target : F) where
    buy_fill-NotNeg :
        (o : Order F) (p : Option F) (b : Book F) {b' : Book F}
        → NotNeg b.cash
        → buy_fill m per_target o p b ≡ ok b'
        → NotNeg b'.cash
    unfolding buy_fill fill_price cost_breakdown
    buy_fill-NotNeg o none b h e = cc
    buy_fill-NotNeg o (some x) b h e = elim (Result-cases (lots_of x)) [
      | inl (n, sized) ↦ ground (arith, laws.sub_not_neg (spent n) b.cash)
      | inr (f, raised) ↦ ground arith
    ]
      where
        px : F
        px = x ⊗ (unit ⊕ m.params.slippage_rate)

        lots_of : F → Result ℕ
        lots_of y = board_lot_shares per_target (some (y ⊗ (unit ⊕ m.params.slippage_rate)))

        spent : ℕ → F
        spent n = fl.of_ℕ n ⊗ px ⊕ buy_cost m.params (fl.of_ℕ n ⊗ px)

    buy_order-NotNeg :
        (o : Order F) (b : Book F) {b' : Book F}
        → NotNeg b.cash
        → buy_order m per_target o b ≡ ok b'
        → NotNeg b'.cash
    unfolding buy_order match_fill
    buy_order-NotNeg o b {b'} h e = ground (arith, buy_fill-NotNeg o (open_of m o) b {b' = b'} h)

    -- The buys never overdraw: if the cash is not below zero before the buy loop and the loop
    -- returns, then it is not below zero after it.
    pub buy_orders-NotNeg :
        (os : List (Order F)) (b : Book F) {b' : Book F}
        → NotNeg b.cash
        → buy_orders m per_target os b ≡ ok b'
        → NotNeg b'.cash
    unfolding buy_orders
    buy_orders-NotNeg [] b h e = ground arith
    buy_orders-NotNeg (o ∷ os) b h e =
        let (b1, e1, e2) = >>=-parts {first = buy_order m per_target o b} e in
        buy_orders-NotNeg os b1 (buy_order-NotNeg o b h e1) e2
