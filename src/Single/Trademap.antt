-- ===== src/Single/Trademap.antt =====
-- `_build_trademap`: on which days of the window a stock may be bought and sold.
pub mod Agreement
use stock_platform.Prelude.{
  ℕ, ◌==◌, ◌&&◌, ◌||◌, Bool, true, false, ltb, leb, if◌then◌else◌, Option, none, some, List, [],
  ◌∷◌, keep,
}
use stock_platform.Prelude.Dict.{Dict, lookup, insert, of_rows}
use stock_platform.Float.{Float, ◌≤?◌, nought}
use stock_platform.Calendar.{Date}
use stock_platform.Execution.{Code, TradeStatus, nonzero}

-- A bar of the window, as far as it is read here.
pub record Bar (F : Type 0) : Type 0 where
  pub trade_date : Date
  pub volume : Option F
  pub pct_change : Option F

pub record Allowed : Type 0 where
  pub buy : Bool
  pub sell : Bool

abbrev pub allowed_by : TradeStatus → Allowed
allowed_by r = record { buy = nonzero r.buy_tradable; sell = nonzero r.sell_tradable }

abbrev pub dated_rows : List TradeStatus → Dict Allowed
dated_rows [] = []
dated_rows (r ∷ rows) = (r.trade_date, allowed_by r) ∷ dated_rows rows

-- The rows of the code from the first to the last day of the window, by date.
abbrev pub status_by_date : List TradeStatus → Code → Date → Date → Dict Allowed
status_by_date statuses code start end = of_rows (
    dated_rows (
      keep
        (λ (r : TradeStatus).
          r.stock_code == code && leb start r.trade_date && leb r.trade_date end)
        statuses))

module _ {F : Type 0} where
  -- The date of the last bar, from the first on.
  abbrev pub last_date : Date → List (Bar F) → Date
  last_date d [] = d
  last_date d (b ∷ bars) = last_date b.trade_date bars

module _ {F : Type 0} ⦃fl : Float F⦄ where
  abbrev dead : Option F → Bool
  dead none = false
  dead (some volume) = volume ≤? nought

  abbrev surged : Option F → Bool
  surged none = false
  surged (some pct) = fl.literal 95 1 ≤? pct

  abbrev plunged : Option F → Bool
  plunged none = false
  plunged (some pct) = pct ≤? fl.neg (fl.literal 95 1)

  -- From the bar alone: no volume stops both sides, a touch of a limit one of them.
  unfoldable pub inferred : Bar F → Allowed
  inferred b =
      let quiet = dead b.volume in
      let up = surged b.pct_change in
      let down = if up then false else plunged b.pct_change in
      record {
        buy = if quiet || up then false else true;
        sell = if quiet || down then false else true;
      }

  abbrev pub allowed_on : Dict Allowed → Bar F → Allowed
  allowed_on status b = elim (lookup b.trade_date status) as (λ _. Allowed) [
    | some a ↦ a
    | none ↦ inferred b
  ]

  abbrev pub fill_map : Dict Allowed → List (Bar F) → Dict Allowed → Dict Allowed
  fill_map status [] out = out
  fill_map status (b ∷ bars) out =
      fill_map status bars (insert b.trade_date (allowed_on status b) out)

  -- The caller has turned away an empty window.
  unfoldable pub build_trademap : List TradeStatus → Code → List (Bar F) → Dict Allowed
  build_trademap statuses code [] = []
  build_trademap statuses code (b ∷ bars) =
      fill_map (status_by_date statuses code b.trade_date (last_date b.trade_date bars)) (b ∷ bars)
        []
