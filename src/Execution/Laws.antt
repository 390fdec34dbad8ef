-- ===== src/Execution/Laws.antt =====
-- Laws of the fill decision, of the board lots and of the fees (backend/app/services/execution.py).
use stock_platform.Prelude.{◌≡◌, refl, ◌⊎◌, ◌↔◌, Bool, true, false, Option, none, arith}
use stock_platform.Prelude.Result.{Result, ok, err}
use stock_platform.Float.{Float, ◌⊕◌, nought}
use stock_platform.Cost.{CostParams, buy_cost, sell_cost}
use stock_platform.Execution.{
  Side, buy, sell, other, Action, fill, skip, defer, Reason, Fees, no_price, cost_breakdown,
  match_fill,
}

-- A blocked buy is dropped and a blocked sell is carried.
abbrev pub carried_or_dropped : Side → Action
carried_or_dropped buy = skip
carried_or_dropped sell = defer
carried_or_dropped other = fill

module _ {F : Type 0} ⦃fl : Float F⦄ where
  -- The total of the fees is the sum of the three items, in the order in which the code adds them:
  -- for a buy, whose stamp duty is the constant 0, commission and transfer fee; for a sell,
  -- commission, transfer fee and stamp duty.
  abbrev pub AddsUp : Side → Result (Fees F) → Type 0
  AddsUp buy (ok f) = (f.total ≡ f.commission ⊕ f.transfer_fee) × (f.stamp_duty ≡ nought)
  AddsUp sell (ok f) = f.total ≡ f.commission ⊕ f.transfer_fee ⊕ f.stamp_duty
  AddsUp other (ok f) = ⊥
  AddsUp buy (err e) = ⊥
  AddsUp sell (err e) = ⊥
  AddsUp other (err e) = Unit

  -- For a buy and a sell the itemised fees exist and add up to the total that the cost model
  -- charges; any other side is refused.
  pub cost_breakdown-AddsUp :
      (side : Side) (amount : F) (p : CostParams F) → AddsUp side (cost_breakdown side amount p)
  unfolding cost_breakdown buy_cost sell_cost
  cost_breakdown-AddsUp buy amount p = (refl, refl)
  cost_breakdown-AddsUp sell amount p = refl
  cost_breakdown-AddsUp other amount p = tt

  -- A decision to fill is made exactly when there is a finite positive open price and the code is
  -- tradable on that side; every other order is skipped if it is a buy and deferred if it is a
  -- sell, and then it has a reason.
  pub match_fill_iff :
      (side : Side) (open_price : Option F) (tradable : Bool) {a : Action} {r : Option Reason}
      → match_fill side open_price tradable ≡ ok (a, r)
      → ((a ≡ fill) ↔ ((no_price open_price ≡ false) × (tradable ≡ true)))
        × ((a ≡ fill) ⊎ (a ≡ carried_or_dropped side))
        × ((r ≡ none) ↔ (a ≡ fill))
  unfolding match_fill
  match_fill_iff buy o t {a} {r} h = ground arith
  match_fill_iff sell o t h = ground arith
  match_fill_iff other o t h = cc
