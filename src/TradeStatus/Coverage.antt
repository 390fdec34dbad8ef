-- ===== src/TradeStatus/Coverage.antt =====
-- `status_coverage`: the share of a day's bars that have a row, which the patrol reads.
use stock_platform.Prelude.{◌==◌, if◌then◌else◌, List, length, keep}
use stock_platform.Prelude.Result.{Result, ok, ◌>>=◌}
use stock_platform.Float.{Float, ◌<?◌, unit, nought, divide}
use stock_platform.Calendar.{Date}
use stock_platform.TradeStatus.Compute.{Bar, Status, day_bars}

module _ {F : Type 0} ⦃fl : Float F⦄ where
  unfoldable pub status_coverage : List (Bar F) → List Status → Date → Result F
  status_coverage bars table d =
      let on_day = length (day_bars d bars) in
      let flagged = length (keep (λ (s : Status). s.trade_date == d) table) in
      let share = (do
        q ← divide (fl.of_ℕ flagged) (fl.of_ℕ on_day)
        ok (if unit <? q then unit else q)) in
      if on_day == 0 then ok nought else share
