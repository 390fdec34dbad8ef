-- ===== src/Cost.antt =====
-- The A-share fee schedule: backend/app/services/cost_model.py.
pub mod Laws
use stock_platform.Prelude.{Bool, true, false, if◌then◌else◌}
use stock_platform.Float.{Float, ◌⊕◌, ◌⊗◌, ◌<?◌, nought, max, abs}

-- `CostParams`: rates as fractions, amounts in CNY.
pub record CostParams (F : Type 0) : Type 0 where
  pub commission_rate : F
  pub min_commission : F
  pub stamp_duty_rate : F
  pub transfer_fee_rate : F
  pub slippage_rate : F

-- The `params` of `AShareCommission`.
pub record CommissionParams (F : Type 0) : Type 0 where
  pub commission : F
  pub min_commission : F
  pub stamp : F
  pub transfer : F

module _ {F : Type 0} ⦃fl : Float F⦄ where
  abbrev pub default_cost : CostParams F
  default_cost = record {
    commission_rate = fl.literal 25 5;
    min_commission = fl.literal 5 0;
    stamp_duty_rate = fl.literal 5 4;
    transfer_fee_rate = fl.literal 1 5;
    slippage_rate = fl.literal 1 3;
  }

  abbrev pub default_commission : CommissionParams F
  default_commission = record {
    commission = fl.literal 25 5;
    min_commission = fl.literal 5 0;
    stamp = fl.literal 5 4;
    transfer = fl.literal 1 5;
  }

  unfoldable pub buy_cost : CostParams F → F → F
  buy_cost p amount =
      max (amount ⊗ p.commission_rate) p.min_commission ⊕ amount ⊗ p.transfer_fee_rate

  unfoldable pub sell_cost : CostParams F → F → F
  sell_cost p amount =
      max (amount ⊗ p.commission_rate) p.min_commission
      ⊕ amount ⊗ p.transfer_fee_rate
      ⊕ amount ⊗ p.stamp_duty_rate

  -- `AShareCommission._getcommission(size, price, pseudoexec)`
  unfoldable pub getcommission : CommissionParams F → F → F → F
  getcommission p size price =
      let amount = abs size ⊗ price in
      let total = max (amount ⊗ p.commission) p.min_commission ⊕ amount ⊗ p.transfer in
      if size <? nought then total ⊕ amount ⊗ p.stamp else total
