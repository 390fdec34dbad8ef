-- ===== src/Paper/ExDay.antt =====
-- What the tripwire of a tick sees of an ex-day (`paper_tick`, backend/app/services/paper_service.py).
use stock_platform.Prelude.{ℕ, ◌≡◌, ltb, List, keep}
use stock_platform.Prelude.Dict.{Dict}
use stock_platform.Calendar.{Date}
use stock_platform.Float.{Float}
use stock_platform.Execution.{DailyPrice}
use stock_platform.Paper.Tables.{Db}
use stock_platform.Paper.Match.{Book}
use stock_platform.Paper.Tick.{tripped_checks}
use stock_platform.Paper.Tripwire.Past.{corporate_action_alerts_past}

module _ {F : Type 0} ⦃fl : Float F⦄ where
  -- The tripwire that a tick runs over its holdings after matching reads no price of its own day: with
  -- any price table that has the same rows before the day, it raises the same alerts, so that the
  -- adjusted close of the ex-day itself plays no part.
  pub tripped_checks_past :
      (db : Db F) (prices : List (DailyPrice F)) (account : ℕ) (d : Date) (snap : Dict (ℕ × F))
      (b : Book F)
      → keep (λ (r : DailyPrice F). ltb r.trade_date d) prices
        ≡ keep (λ (r : DailyPrice F). ltb r.trade_date d) db.prices
      → tripped_checks (record db { prices = prices }) account d snap b
        ≡ tripped_checks db account d snap b
  tripped_checks_past db prices account d snap b same =
      corporate_action_alerts_past _ prices account d b.holdings _ same
