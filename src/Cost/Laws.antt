-- ===== src/Cost/Laws.antt =====
-- The two implementations of the fee schedule agree.
use stock_platform.Prelude.{◌≡◌, refl, if◌then◌else◌}
use stock_platform.Float.{Float, ◌⊗◌, ◌<?◌, nought, abs}
use stock_platform.Cost.{
  CostParams, CommissionParams, buy_cost, sell_cost, getcommission, default_cost,
  default_commission,
}

module _ {F : Type 0} ⦃fl : Float F⦄ where
  abbrev pub commission_of : CostParams F → CommissionParams F
  commission_of p = record {
    commission = p.commission_rate;
    min_commission = p.min_commission;
    stamp = p.stamp_duty_rate;
    transfer = p.transfer_fee_rate;
  }

  -- The backtrader commission charges, for the same rates, exactly what the cost model charges on
  -- the amount `abs(size) * price`: the sell cost for a negative size and else the buy cost.
  pub getcommission_eq_cost :
      (p : CostParams F) (size price : F)
      → getcommission (commission_of p) size price
        ≡ (if size <? nought then sell_cost p (abs size ⊗ price) else buy_cost p (abs size ⊗ price))
  unfolding getcommission sell_cost buy_cost
  getcommission_eq_cost p size price = refl

  -- The defaults of both are the same rates.
  pub default_commission_lem : commission_of default_cost ≡ default_commission
  default_commission_lem = refl
