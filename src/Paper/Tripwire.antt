-- ===== src/Paper/Tripwire.antt =====
-- The corporate-action tripwire: `_corporate_action_alerts` and `_prev_qfq_close` of
-- backend/app/services/paper_service.py.
pub mod Past
use stock_platform.Prelude.{
  ℕ, ◌==◌, ◌&&◌, Bool, true, false, ltb, if◌then◌else◌, Option, none, some, List, [], ◌∷◌, ◌++◌,
  keep, elem, first,
}
use stock_platform.Prelude.Dict.{Dict, lookup, get_or, contains}
use stock_platform.Prelude.Result.{Result, ok, ◌>>=◌}
use stock_platform.Calendar.{Date}
use stock_platform.Float.{Float, ◌⊖◌, ◌<?◌, nought, unit, is_zero, divide, max, abs}
use stock_platform.Execution.{Code, DailyPrice}
use stock_platform.Paper.Tables.{Db, Check, corporate_action, AdjustFactor, KlineDaily}
use stock_platform.Paper.Reads.{last_date, flag}

module _ {F : Type 0} where
  abbrev price_dates : List (DailyPrice F) → List Date
  price_dates [] = []
  price_dates (r ∷ rows) = r.trade_date ∷ price_dates rows

  -- The last day with a price before `d`.
  abbrev pub prev_day : List (DailyPrice F) → Date → Option Date
  prev_day prices d =
      last_date (price_dates (keep (λ (r : DailyPrice F). ltb r.trade_date d) prices))

  abbrev close_of_row : Option (DailyPrice F) → Option F
  close_of_row none = none
  close_of_row (some r) = r.close_price

  abbrev price_on : List (DailyPrice F) → Code → Date → Option F
  price_on prices c d =
      close_of_row (first (λ (r : DailyPrice F). r.stock_code == c && r.trade_date == d) prices)

  abbrev kline_on : List (KlineDaily F) → Code → Date → Option F
  kline_on klines c d =
      elim (first (λ (r : KlineDaily F). r.stock_code == c && r.trade_date == d) klines) [
        | none ↦ none
        | some r ↦ r.close_price
      ]

  -- `factors[code][day]`: a later row wins.
  abbrev factor_on : List (AdjustFactor F) → Code → Date → Option F
  factor_on [] c d = none
  factor_on (r ∷ rows) c d =
      let here = if r.stock_code == c && r.trade_date == d then some r.adj_factor else none in
      elim (factor_on rows c d) [ none ↦ here | some f ↦ some f ]

  abbrev factor_codes : List (AdjustFactor F) → List Code
  factor_codes [] = []
  factor_codes (r ∷ rows) = r.stock_code ∷ factor_codes rows

-- The keys of `factors`, in the order of their first rows.
abbrev add_new : List Code → List Code → List Code
add_new seen [] = seen
add_new seen (c ∷ codes) = add_new (if elem c seen then seen else seen ++ (c ∷ [])) codes

module _ {F : Type 0} ⦃fl : Float F⦄ where
  abbrev factor_ratio : F → F → Result F
  factor_ratio before now =
      let ratio = divide now before in if is_zero before then ok unit else ratio

  -- The returns of an ex-day, where all four prices are there.
  abbrev diverges : F → F → F → F → Result Bool
  diverges last prev_qfq raw raw_prev = do
    a ← divide last (max prev_qfq (fl.literal 1 9))
    b ← divide raw raw_prev
    ok (fl.literal 3 2 <? abs (a ⊖ unit ⊖ (b ⊖ unit)))

  abbrev compare_returns : Option F → F → Option F → Option F → Result Bool
  compare_returns (some last) prev_qfq (some raw) (some raw_prev) =
      diverges last prev_qfq raw raw_prev
  compare_returns _ _ _ _ = ok false

  abbrev on_ex_day :
      List (KlineDaily F) → Date → Date → Option F → Option F → Code → F → F → Result Bool
  on_ex_day klines before d last prev_qfq c f_before f_now = do
    ratio ← factor_ratio f_before f_now
    let compared =
        compare_returns last (get_or nought prev_qfq) (kline_on klines c d)
          (kline_on klines c before)
    if abs (ratio ⊖ unit) <? fl.literal 1 9 then ok false else compared

  abbrev check_factors :
      List (KlineDaily F)
      → Date
      → Date
      → Option F
      → Option F
      → Code
      → Option F
      → Option F
      → Result Bool
  check_factors klines before d last prev_qfq c (some f_before) (some f_now) =
      on_ex_day klines before d last prev_qfq c f_before f_now
  check_factors klines before d last prev_qfq c _ _ = ok false

  -- Whether a held code's returns break on an ex-day.
  unfoldable pub breaks : Db F → Date → Date → Dict F → List (AdjustFactor F) → Code → Result Bool
  breaks db before d last_close rows c =
      check_factors db.klines before d (lookup c last_close) (price_on db.prices c before) c
        (factor_on rows c before) (factor_on rows c d)

  unfoldable pub break_alerts : (Code → Result Bool) → Check F → List Code → Result (List (Check F))
  break_alerts f alert [] = ok []
  break_alerts f alert (c ∷ codes) =
      let rest = break_alerts f alert codes in
      do broken ← f c; there ← rest; ok (if broken then alert ∷ there else there)

  abbrev factor_rows : Db F → Dict ℕ → Date → Date → List (AdjustFactor F)
  factor_rows db holdings before d =
      keep
        (λ (r : AdjustFactor F).
          contains r.stock_code holdings
          && (if r.trade_date == before then true else r.trade_date == d))
        db.adjust_factors

  abbrev alerts_since : Db F → ℕ → Date → Dict ℕ → Dict F → Option Date → Result (List (Check F))
  alerts_since db account d holdings last_close none = ok []
  alerts_since db account d holdings last_close (some before) =
      let rows = factor_rows db holdings before d in
      break_alerts (breaks db before d last_close rows) (flag account d corporate_action)
        (add_new [] (factor_codes rows))

  unfoldable pub corporate_action_alerts :
      Db F → ℕ → Date → Dict ℕ → Dict F → Result (List (Check F))
  unfolding break_alerts breaks
  corporate_action_alerts db account d [] last_close = ok []
  corporate_action_alerts db account d (h ∷ holdings) last_close =
      alerts_since db account d (h ∷ holdings) last_close (prev_day db.prices d)
