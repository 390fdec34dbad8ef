-- ===== src/Backtest/Agreement.antt =====
-- The paper engine's match of the orders that the membership diff creates, against the backtest's
-- execution day over the same holdings, targets and quotes.
use stock_platform.Prelude.{ℕ, ◌-◌, ◌≡◌, refl, true, false, not, List, [], ◌∷◌, arith, keep, elem}
use stock_platform.Prelude.Dict.{Dict, contains, keys, contains-eq-elem-keys}
use stock_platform.Prelude.Result.{◌>>=◌}
use stock_platform.Float.{Float}
use stock_platform.Execution.{Code, slot_value}
use stock_platform.Paper.{Order}
use stock_platform.Paper.Match.{Market, Book, buy_orders, match_orders}
use stock_platform.Backtest.Match.{Portfolio, buy_codes, rebalance}
use stock_platform.Backtest.Outcome.{
  Agree, SameOutcome, codes_of, bind-SameOutcome, prefix-SameOutcome,
}
use stock_platform.Backtest.Sells.{
  Ready, IsHoldings, KeepsTargets, sell_codes-SameOutcome, sell_codes-KeepsTargets,
}
use stock_platform.Backtest.Buys.{Matches, buy_codes-SameOutcome}

-- No code stands twice in the list.
abbrev pub IsDistinct : List Code → Type 0
IsDistinct [] = Unit
IsDistinct (c ∷ cs) = (elem c cs ≡ false) × IsDistinct cs

Ready-weaken :
    (c n : ℕ) (cs : List Code) (h : Dict ℕ) → elem c cs ≡ false → Ready cs h → Ready cs ((c, n) ∷ h)
Ready-weaken c n [] h fresh r = tt
Ready-weaken c n (d ∷ cs) h fresh ((k, held), other, r) =
    ((k, ground arith), other, Ready-weaken c n cs h (ground arith) r)

Ready-keys : (h : Dict ℕ) → IsHoldings h → Ready (keys h) h
Ready-keys [] v = tt
Ready-keys ((c, n) ∷ h) (positive, fresh, v) =
    let fresh' : elem c (keys h) ≡ false = ground (arith, contains-eq-elem-keys c h) in
    ((n - 1, ground arith), fresh', Ready-weaken c n (keys h) h fresh' (Ready-keys h v))

Matches-of_keeps :
    (targets cs : List Code) (h0 h : Dict ℕ)
    → IsDistinct cs
    → ((c : Code) → elem c cs ≡ true → elem c targets ≡ true)
    → ((c : Code) → elem c targets ≡ true → contains c h ≡ contains c h0)
    → Matches h0 cs h
Matches-of_keeps targets [] h0 h v inside k = tt
Matches-of_keeps targets (c ∷ cs) h0 h (fresh, v) inside k = (
  k c (inside c (ground arith)),
  fresh,
  Matches-of_keeps targets cs h0 h v (λ d e. inside d (ground arith)) k,
)

module _ {F : Type 0} ⦃fl : Float F⦄ (m : Market F) (top_n : ℕ) (targets : List Code) where
  -- Let the holdings have different codes and positive shares, and the targets be distinct. If the
  -- sell orders are for the held codes that are no targets, in the order of the holdings, and the
  -- buy orders for the targets that are not held, in their order, then the match of those orders
  -- and the backtest's rebalancing end with the same cash and the same holdings, or with the same
  -- exception.
  pub match_orders-Agree :
      (sells buys : List (Order F)) (b : Book F) (p : Portfolio F)
      → IsHoldings p.holdings
      → IsDistinct targets
      → codes_of sells ≡ keep (λ c. not (elem c targets)) (keys p.holdings)
      → codes_of buys ≡ keep (λ c. not (contains c p.holdings)) targets
      → Agree b p
      → SameOutcome
          (match_orders m top_n sells buys b)
          (rebalance m.params m.quotes top_n targets p)
  unfolding match_orders rebalance
  match_orders-Agree sells buys b p v distinct es eb same =
      bind-SameOutcome (KeepsTargets m targets p.holdings) _ _ _ _
        (sell_codes-SameOutcome m targets (keys p.holdings) sells b p es (Ready-keys _ v) same)
        (sell_codes-KeepsTargets m targets (keys p.holdings) p.holdings p (λ c t. refl)) after_sells
    where
      after_sells :
          (sold : Book F) (sold' : Portfolio F)
          → Agree sold sold'
          → KeepsTargets m targets p.holdings sold'
          → SameOutcome
              (slot_value sold.cash m.quotes.opens sold.holdings top_n >>= λ per_target.
                buy_orders m per_target buys sold)
              (slot_value sold'.cash m.quotes.opens sold'.holdings top_n >>= λ per_target.
                buy_codes m.params m.quotes per_target targets sold')
      after_sells sold sold' (cash, holdings) keeps =
          let same_slot : slot_value sold.cash m.quotes.opens sold.holdings top_n
              ≡ slot_value sold'.cash m.quotes.opens sold'.holdings top_n =
            cc in
          rw same_slot (
            prefix-SameOutcome (slot_value sold'.cash m.quotes.opens sold'.holdings top_n) _ _
              (λ per_target.
                buy_codes-SameOutcome m per_target p.holdings targets buys sold sold' eb
                  (Matches-of_keeps targets targets p.holdings sold'.holdings distinct (λ c t. t)
                    keeps)
                  (cash, holdings)))
