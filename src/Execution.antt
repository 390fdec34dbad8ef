-- ===== src/Execution.antt =====
-- The shared execution layer: backend/app/services/execution.py. Stock codes are digit strings of
-- one length, modelled by their numbers; they are only compared and sorted. Dates are ordinals.
mod Tables
pub mod Laws
pub use Tables.*
use stock_platform.Prelude.{
  ℕ, ◌*◌, ◌==◌, Bool, true, false, Option, none, some, List, [], ◌∷◌, keep, elem, ◌&&◌,
  if◌then◌else◌,
}
use stock_platform.Prelude.Int.{pos_part}
use stock_platform.Prelude.Dict.{Dict, of_rows, lookup, get_or}
use stock_platform.Prelude.Result.{Result, ok, err, value_error, not_integral, ◌>>=◌, or_raise}
use stock_platform.Calendar.{Date}
use stock_platform.Float.{Float, ◌⊕◌, ◌⊖◌, ◌⊗◌, ◌≤?◌, nought, unit, max, divide, sum}
use stock_platform.Cost.{CostParams, buy_cost, sell_cost}

-- The texts of `side`; `other` is any other text.
pub data Side : Type 0 where
  buy sell other : Side

pub data Action : Type 0 where
  fill skip defer : Action

-- The texts of `fail_reason`.
pub data Reason : Type 0 where
  no_open_price buy_blocked sell_blocked no_position insufficient_cash below_board_lot : Reason

pub record Fees (F : Type 0) : Type 0 where
  pub commission : F
  pub stamp_duty : F
  pub transfer_fee : F
  pub total : F

abbrev pub board_lot : ℕ
board_lot = 100

module _ {F : Type 0} where
  -- The rows of a column that is not NULL, by code.
  abbrev pub present : (DailyPrice F → Option F) → List (DailyPrice F) → Dict F
  present column [] = []
  present column (r ∷ rows) = elim (column r) [
    | none ↦ present column rows
    | some x ↦ (r.stock_code, x) ∷ present column rows
  ]

  abbrev pub prices_of : List Code → Date → List (DailyPrice F) → List (DailyPrice F)
  prices_of codes d = keep (λ r. r.trade_date == d && elem r.stock_code codes)

  unfoldable pub fetch_open_prices : List (DailyPrice F) → List Code → Date → Dict F
  fetch_open_prices rows [] d = []
  fetch_open_prices rows (c ∷ codes) d =
      of_rows (present (λ r. r.open_price) (prices_of (c ∷ codes) d rows))

abbrev blocked_action : Side → Action
blocked_action buy = skip
blocked_action _ = defer

abbrev blocked_reason : Side → Reason
blocked_reason buy = buy_blocked
blocked_reason _ = sell_blocked

abbrev pub nonzero : ℕ → Bool
nonzero n = if n == 0 then false else true

abbrev pub status_rows : (TradeStatus → ℕ) → List TradeStatus → Dict Bool
status_rows column [] = []
status_rows column (r ∷ rows) = (r.stock_code, nonzero (column r)) ∷ status_rows column rows

unfoldable pub fetch_tradability : List TradeStatus → List Code → Date → Dict Bool × Dict Bool
fetch_tradability rows [] d = ([], [])
fetch_tradability rows (c ∷ codes) d =
    let found =
      keep (λ (r : TradeStatus). r.trade_date == d && elem r.stock_code (c ∷ codes)) rows in
    (
      of_rows (status_rows (λ r. r.sell_tradable) found),
      of_rows (status_rows (λ r. r.buy_tradable) found),
    )

module _ {F : Type 0} ⦃fl : Float F⦄ where
  unfoldable pub fill_price : F → Side → F → Result F
  fill_price open_price buy slippage = ok (open_price ⊗ (unit ⊕ slippage))
  fill_price open_price sell slippage = ok (open_price ⊗ (unit ⊖ slippage))
  fill_price open_price other slippage = err value_error

  -- `price <= 0` or not finite, for a price that may be absent
  abbrev pub no_price : Option F → Bool
  no_price none = true
  no_price (some p) = if fl.is_finite p then p ≤? nought else true

  unfoldable pub board_lot_shares : F → Option F → Result ℕ
  board_lot_shares target_value none = ok 0
  board_lot_shares target_value (some price) =
      let lots = do
        a ← divide target_value price
        b ← divide a (fl.of_ℕ board_lot)
        n ← or_raise (fl.int b) not_integral
        ok (pos_part n * board_lot)
      in if no_price (some price) then ok 0 else lots

  unfoldable pub cost_breakdown : Side → F → CostParams F → Result (Fees F)
  cost_breakdown buy amount params = ok (record {
    commission = max (amount ⊗ params.commission_rate) params.min_commission;
    stamp_duty = nought;
    transfer_fee = amount ⊗ params.transfer_fee_rate;
    total = buy_cost params amount;
  })
  cost_breakdown sell amount params = ok (record {
    commission = max (amount ⊗ params.commission_rate) params.min_commission;
    stamp_duty = amount ⊗ params.stamp_duty_rate;
    transfer_fee = amount ⊗ params.transfer_fee_rate;
    total = sell_cost params amount;
  })
  cost_breakdown other amount params = err value_error

  abbrev pub decide_fill : Side → Option F → Bool → Action × Option Reason
  decide_fill side open_price tradable =
      if no_price open_price
      then (blocked_action side, some no_open_price)
      else if tradable
      then (fill, none)
      else (blocked_action side, some (blocked_reason side))

  -- The reason is `none` for the empty text.
  unfoldable pub match_fill : Side → Option F → Bool → Result (Action × Option Reason)
  match_fill other open_price tradable = err value_error
  match_fill buy open_price tradable = ok (decide_fill buy open_price tradable)
  match_fill sell open_price tradable = ok (decide_fill sell open_price tradable)

-- Both fetches for one day, as both matching loops make them.
module _ {F : Type 0} where
  unfoldable pub fetch_quotes : List (DailyPrice F) → List TradeStatus → List Code → Date → Quotes F
  unfolding fetch_open_prices fetch_tradability
  fetch_quotes prices statuses codes d =
      let (sell_ok, buy_ok) = fetch_tradability statuses codes d in
      record { opens = fetch_open_prices prices codes d; sell_ok = sell_ok; buy_ok = buy_ok }

  -- The values of the holdings at the opens, in the order of the dict, with a price for a code
  -- that has no open.
  abbrev pub open_values : ⦃fl : Float F⦄ → Dict F → (Code → F) → Dict ℕ → List F
  open_values opens otherwise [] = []
  open_values ⦃fl⦄ opens otherwise ((c, sh) ∷ holdings) =
      fl.of_ℕ sh ⊗ get_or (otherwise c) (lookup c opens) ∷ open_values opens otherwise holdings

  -- The equal slot of a buy: the value at the open, cash included, over `top_n`.
  unfoldable pub slot_value : ⦃fl : Float F⦄ → F → Dict F → Dict ℕ → ℕ → Result F
  unfolding divide
  slot_value ⦃fl⦄ cash opens holdings top_n =
      divide (max (cash ⊕ sum (open_values opens (λ _. nought) holdings)) nought) (fl.of_ℕ top_n)
