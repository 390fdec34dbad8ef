-- ===== src/Backtest/Match.antt =====
-- One execution day of `run_mf_backtest` (backend/app/services/portfolio_backtest_service.py):
-- holdings that are no targets are sold at the open, then each target gets an equal slot.
use stock_platform.Prelude.{
  ℕ, ◌==◌, true, Option, none, some, List, [], ◌∷◌, ◌++◌, if◌then◌else◌, elem,
}
use stock_platform.Prelude.Dict.{Dict, lookup, get_or, insert, erase, contains, keys}
use stock_platform.Prelude.Result.{Result, ok, err, type_error, key_error, ◌>>=◌, or_raise}
use stock_platform.Cost.{CostParams, buy_cost, sell_cost}
use stock_platform.Float.{Float, ◌⊕◌, ◌⊖◌, ◌⊗◌, ◌<?◌}
use stock_platform.Execution.{
  Code, buy, sell, fill, fill_price, board_lot_shares, match_fill, Quotes, slot_value,
}

-- An entry of `buys` and `sells`.
pub record Fill (F : Type 0) : Type 0 where
  pub code : Code
  pub shares : ℕ
  pub price : F
  pub fee : F

pub record Portfolio (F : Type 0) : Type 0 where
  pub cash : F
  pub holdings : Dict ℕ
  pub reb_cost : F
  pub sells : List (Fill F)
  pub buys : List (Fill F)

module _ {F : Type 0} ⦃fl : Float F⦄ where
  abbrev pub fill_of : Code → ℕ → F → F → Fill F
  fill_of c shares px fee = record {
    code = c;
    shares = shares;
    price = fl.round px 4;
    fee = fl.round fee 2;
  }

  unfoldable pub sell_code :
      CostParams F → Quotes F → Code → Option F → Portfolio F → Result (Portfolio F)
  sell_code cp q c none p = err type_error
  sell_code cp q c (some open_price) p = do
    px ← fill_price open_price sell cp.slippage_rate
    shares ← or_raise (lookup c p.holdings) key_error
    let amount = fl.of_ℕ shares ⊗ px
    let fee = sell_cost cp amount
    ok (record p {
      cash = p.cash ⊕ (amount ⊖ fee);
      holdings = erase c p.holdings;
      reb_cost = p.reb_cost ⊕ fee;
      sells = p.sells ++ (fill_of c shares px fee ∷ []);
    })

  unfoldable pub consider_sell :
      CostParams F → Quotes F → List Code → Code → Portfolio F → Result (Portfolio F)
  consider_sell cp q targets c p =
      let sold = do
        decision ← match_fill sell (lookup c q.opens) (get_or true (lookup c q.sell_ok))
        elim decision.0 [ fill ↦ sell_code cp q c (lookup c q.opens) p | _ ↦ ok p ]
      in if elem c targets then ok p else sold

  unfoldable pub sell_codes :
      CostParams F → Quotes F → List Code → List Code → Portfolio F → Result (Portfolio F)
  sell_codes cp q targets [] p = ok p
  sell_codes cp q targets (c ∷ codes) p =
      consider_sell cp q targets c p >>= sell_codes cp q targets codes

  unfoldable pub buy_code : CostParams F → F → Code → Option F → Portfolio F → Result (Portfolio F)
  buy_code cp per_target c none p = err type_error
  buy_code cp per_target c (some open_price) p = do
    px ← fill_price open_price buy cp.slippage_rate
    shares ← board_lot_shares per_target (some px)
    let amount = fl.of_ℕ shares ⊗ px
    let fee = buy_cost cp amount
    let bought = record p {
      cash = p.cash ⊖ (amount ⊕ fee);
      holdings = insert c shares p.holdings;
      reb_cost = p.reb_cost ⊕ fee;
      buys = p.buys ++ (fill_of c shares px fee ∷ []);
    }
    ok (if shares == 0 then p else if p.cash <? amount ⊕ fee then p else bought)

  unfoldable pub consider_buy :
      CostParams F → Quotes F → F → Code → Portfolio F → Result (Portfolio F)
  consider_buy cp q per_target c p =
      let bought = do
        decision ← match_fill buy (lookup c q.opens) (get_or true (lookup c q.buy_ok))
        elim decision.0 [ fill ↦ buy_code cp per_target c (lookup c q.opens) p | _ ↦ ok p ]
      in if contains c p.holdings then ok p else bought

  unfoldable pub buy_codes :
      CostParams F → Quotes F → F → List Code → Portfolio F → Result (Portfolio F)
  buy_codes cp q per_target [] p = ok p
  buy_codes cp q per_target (c ∷ codes) p =
      consider_buy cp q per_target c p >>= buy_codes cp q per_target codes

  -- The sells over `list(holdings)`, the slot value, the buys over the targets.
  unfoldable pub rebalance :
      CostParams F → Quotes F → ℕ → List Code → Portfolio F → Result (Portfolio F)
  rebalance cp q top_n targets p = do
    sold ← sell_codes cp q targets (keys p.holdings) p
    per_target ← slot_value sold.cash q.opens sold.holdings top_n
    buy_codes cp q per_target targets sold
