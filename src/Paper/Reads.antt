-- ===== src/Paper/Reads.antt =====
-- What the tick reads from the tables: backend/app/services/paper_service.py.
use stock_platform.Prelude.{
  ℕ, ◌==◌, ◌&&◌, Bool, true, false, ltb, leb, if◌then◌else◌, Option, none, some, List, [], ◌∷◌,
  keep, first,
}
use stock_platform.Prelude.Dict.{Dict, of_rows}
use stock_platform.Prelude.Result.{Result, ok, key_error, ◌>>=◌, or_raise}
use stock_platform.Calendar.{Date}
use stock_platform.Float.{Float, nought, unit}
use stock_platform.Execution.{Code, DailyPrice, present, prices_of}
use stock_platform.Paper.Tables.{
  Db, Position, Rule, Check, Metric, drawdown, turnover, sell_stuck, IndexQuote,
}
use stock_platform.Paper.Analytics.{alert_eval}

-- The greatest of some dates: `ORDER BY date DESC LIMIT 1`.
abbrev pub later : Option Date → Date → Option Date
later none d = some d
later (some e) d = if ltb e d then some d else some e

abbrev pub last_date : List Date → Option Date
last_date [] = none
last_date (d ∷ dates) = later (last_date dates) d

abbrev metric_code : Metric → ℕ
metric_code m = elim m [
  | Metric.drawdown ↦ 0
  | Metric.turnover ↦ 1
  | Metric.sell_stuck ↦ 2
  | Metric.corporate_action ↦ 3
  | Metric.data_incomplete ↦ 4
  | Metric.signal_empty ↦ 5
]

module _ {F : Type 0} where
  abbrev positions_before : Db F → ℕ → Date → List (Position F)
  positions_before db account before =
      keep (λ (p : Position F). p.account_id == account && ltb p.trade_date before) db.positions

  abbrev position_dates : List (Position F) → List Date
  position_dates [] = []
  position_dates (p ∷ ps) = p.trade_date ∷ position_dates ps

  abbrev position_rows : List (Position F) → List (Code × (ℕ × F))
  position_rows [] = []
  position_rows (p ∷ ps) = (p.stock_code, (p.shares, p.close_price)) ∷ position_rows ps

  abbrev snapshot_on : List (Position F) → Option Date → Dict (ℕ × F)
  snapshot_on rows none = []
  snapshot_on rows (some d) =
      of_rows (position_rows (keep (λ (p : Position F). p.trade_date == d) rows))

  -- The holdings of the latest snapshot before a day, with their closes.
  unfoldable pub positions_latest : Db F → ℕ → Date → Dict (ℕ × F)
  positions_latest db account before =
      let rows = positions_before db account before in
      snapshot_on rows (last_date (position_dates rows))

  abbrev pub shares_of : Dict (ℕ × F) → Dict ℕ
  shares_of [] = []
  shares_of ((c, v) ∷ rows) = (c, v.0) ∷ shares_of rows

  abbrev pub closes_of : Dict (ℕ × F) → Dict F
  closes_of [] = []
  closes_of ((c, v) ∷ rows) = (c, v.1) ∷ closes_of rows

  unfoldable pub closes_on : List (DailyPrice F) → List Code → Date → Dict F
  closes_on rows [] d = []
  closes_on rows (c ∷ codes) d =
      of_rows (present (λ r. r.close_price) (prices_of (c ∷ codes) d rows))

  abbrev later_quote : Option (IndexQuote F) → IndexQuote F → Option (IndexQuote F)
  later_quote none q = some q
  later_quote (some p) q = if ltb p.trade_date q.trade_date then some q else some p

  abbrev last_quote : List (IndexQuote F) → Option (IndexQuote F)
  last_quote [] = none
  last_quote (q ∷ quotes) = later_quote (last_quote quotes) q

  abbrev has_close : IndexQuote F → Bool
  has_close q = elim q.close_price [ none ↦ false | some _ ↦ true ]

  -- The benchmark's latest close that is not NULL, on the day or before.
  unfoldable pub benchmark_close : Db F → ℕ → Date → Option F
  benchmark_close db benchmark d =
      elim (last_quote (
        keep (λ (q : IndexQuote F). q.index_code == benchmark && leb q.trade_date d && has_close q)
          db.index_quotes)) [ none ↦ none | some q ↦ q.close_price ]

module _ {F : Type 0} ⦃fl : Float F⦄ where
  abbrev pub default_rules : List (Rule F)
  default_rules =
      record {
        metric = drawdown;
        warn_threshold = fl.literal 10 2;
        fail_threshold = fl.literal 20 2;
      }
      ∷ record {
        metric = turnover;
        warn_threshold = fl.literal 1 0;
        fail_threshold = fl.literal 2 0;
      }
      ∷ record {
        metric = sell_stuck;
        warn_threshold = fl.literal 10 0;
        fail_threshold = fl.literal 20 0;
      }
      ∷ []

  -- The rows of `paper_health`, seeded if there are none. The table holds no other check's rules.
  unfoldable pub ensure_rules : Db F → Db F
  ensure_rules db = elim db.rules [ [] ↦ record db { rules = default_rules } | _ ∷ _ ↦ db ]

  abbrev find_rule : Metric → List (Rule F) → Option (Rule F)
  find_rule metric = first (λ (r : Rule F). metric_code r.metric == metric_code metric)

  -- `rules[metric]`
  abbrev pub rule_of : Metric → List (Rule F) → Result (Rule F)
  rule_of metric rules = or_raise (find_rule metric rules) key_error

  unfoldable pub check_row : ℕ → Date → Metric → F → F → F → Check F
  unfolding alert_eval
  check_row account d metric value warn_limit fail_limit = record {
    check_date = d;
    metric = metric;
    account_id = account;
    metric_value = fl.round value 4;
    status = alert_eval (some value) warn_limit fail_limit false;
  }

  abbrev pub rule_check : ℕ → Date → Metric → F → List (Rule F) → Result (Check F)
  rule_check account d metric value rules = do
    r ← rule_of metric rules
    ok (check_row account d metric value r.warn_threshold r.fail_threshold)

  -- A check that is raised as such: its value is 1, over the limits 0 and 1.
  abbrev pub flag : ℕ → Date → Metric → Check F
  flag account d metric = check_row account d metric unit nought unit
