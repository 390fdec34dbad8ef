-- ===== src/Paper/Tripwire/Past.antt =====
-- The corporate-action tripwire reads no adjusted price of the day itself.
use stock_platform.Prelude.{
  ℕ, ◌==◌, ◌&&◌, ◌≡◌, ◌<◌, refl, ◌∙◌, sym, ap, Bool, ltb, some, List, [], ◌∷◌, keep, first, arith,
  Option-cases, inl, inr,
}
use stock_platform.Prelude.Dict.{Dict, lookup}
use stock_platform.Prelude.Result.{Result}
use stock_platform.Calendar.{Date}
use stock_platform.Float.{Float}
use stock_platform.Execution.{Code, DailyPrice}
use stock_platform.Paper.Tables.{Db, AdjustFactor, Check}
use stock_platform.Paper.Reads.{last_date}
use stock_platform.Paper.Tripwire.{
  price_dates, prev_day, price_on, close_of_row, check_factors, factor_on, alerts_since, breaks,
  break_alerts, corporate_action_alerts,
}

module _ {F : Type 0} where
  abbrev before_day : Date → List (DailyPrice F) → List (DailyPrice F)
  before_day d = keep (λ (r : DailyPrice F). ltb r.trade_date d)

  first-before_day :
      (rows : List (DailyPrice F)) (c : Code) (before d : Date)
      → before < d
      → first (λ (r : DailyPrice F). r.stock_code == c && r.trade_date == before) rows
        ≡ first
            (λ (r : DailyPrice F). r.stock_code == c && r.trade_date == before)
            (before_day d rows)
  first-before_day [] c before d h = refl
  first-before_day (r ∷ rows) c before d h = ground (arith, first-before_day rows c before d h)

  last_date-lt :
      (rows : List (DailyPrice F)) (d e : Date)
      → last_date (price_dates (before_day d rows)) ≡ some e
      → e < d
  last_date-lt [] d e h = cc
  last_date-lt (r ∷ rows) d e h =
      elim (Option-cases (last_date (price_dates (before_day d rows)))) [
        | inl t ↦ ground arith
        | inr (f, t) ↦ ground (arith, last_date-lt rows d f t)
      ]

  price_on-before_day :
      (p q : List (DailyPrice F)) (c : Code) (before d : Date)
      → before < d
      → before_day d p ≡ before_day d q
      → price_on p c before ≡ price_on q c before
  price_on-before_day p q c before d h same = ap close_of_row (
      first-before_day p c before d h
      ∙ ap (first (λ (r : DailyPrice F). r.stock_code == c && r.trade_date == before)) same
      ∙ sym (first-before_day q c before d h))

module _ {F : Type 0} ⦃fl : Float F⦄ where
  breaks-prices :
      (db : Db F) (prices : List (DailyPrice F)) (before d : Date) (closes : Dict F)
      (rows : List (AdjustFactor F)) (c : Code)
      → before < d
      → before_day d prices ≡ before_day d db.prices
      → breaks (record db { prices = prices }) before d closes rows c
        ≡ breaks db before d closes rows c
  unfolding breaks
  breaks-prices db prices before d closes rows c h same =
      ap
        (λ p.
          check_factors db.klines before d (lookup c closes) p c (factor_on rows c before)
            (factor_on rows c d))
        (price_on-before_day prices db.prices c before d h same)

  break_alerts-congr :
      (f g : Code → Result Bool) (alert : Check F) (cs : List Code)
      → ((c : Code) → f c ≡ g c)
      → break_alerts f alert cs ≡ break_alerts g alert cs
  unfolding break_alerts
  break_alerts-congr f g alert [] h = refl
  break_alerts-congr f g alert (c ∷ cs) h = rw (h c, break_alerts-congr f g alert cs h)

  alerts_since-prices :
      (db : Db F) (prices : List (DailyPrice F)) (account : ℕ) (before d : Date) (holdings : Dict ℕ)
      (closes : Dict F)
      → before < d
      → before_day d prices ≡ before_day d db.prices
      → alerts_since (record db { prices = prices }) account d holdings closes (some before)
        ≡ alerts_since db account d holdings closes (some before)
  alerts_since-prices db prices account before d holdings closes h same =
      break_alerts-congr _ _ _ _ (λ c. breaks-prices db prices before d closes _ c h same)

  pub corporate_action_alerts_past :
      (db : Db F) (prices : List (DailyPrice F)) (account : ℕ) (d : Date) (holdings : Dict ℕ)
      (closes : Dict F)
      → keep (λ (r : DailyPrice F). ltb r.trade_date d) prices
        ≡ keep (λ (r : DailyPrice F). ltb r.trade_date d) db.prices
      → corporate_action_alerts (record db { prices = prices }) account d holdings closes
        ≡ corporate_action_alerts db account d holdings closes
  unfolding corporate_action_alerts
  corporate_action_alerts_past db prices account d [] closes same = refl
  corporate_action_alerts_past db prices account d (h ∷ holdings) closes same =
      elim (Option-cases (prev_day db.prices d)) [
        | inl e ↦ rw same (rw e)
        | inr (before, e) ↦
            let lt : before < d = last_date-lt db.prices d before e in
            rw same
              (rw e (alerts_since-prices db prices account before d (h ∷ holdings) closes lt same))
      ]
