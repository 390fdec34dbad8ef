-- ===== src/Startup.antt =====
-- The catch-up at the start of the process: `detect_gap` and `backfill_daily_k` of
-- backend/app/data/backfill.py. What the fetches return is an argument; the summary row is left out.
pub mod Days
use stock_platform.Prelude.{
  ℕ, zero, suc, ◌+◌, ◌-◌, ◌≤◌, ◌==◌, ◌&&◌, Bool, true, false, leb, ltb, if◌then◌else◌, Option, none,
  some, List, [], ◌∷◌, elem, keep, count, take,
}
use stock_platform.Prelude.Dict.{Dict}
use stock_platform.Float.{Float, ◌⊗◌, ◌<?◌}
use stock_platform.Calendar.{Date, weekday}
use stock_platform.Execution.{Code}
use stock_platform.Kline.Rows.{Bar}
use stock_platform.Kline.Sync.{sync_one_stock}

abbrev pub max_backfill_days : ℕ
max_backfill_days = 30

abbrev count_window : ℕ
count_window = 15

abbrev insert_day : Date → List Date → List Date
insert_day d [] = d ∷ []
insert_day d (e ∷ days) =
    let rest = insert_day d days in
    if d == e then e ∷ days else if ltb e d then d ∷ e ∷ days else e ∷ rest

module _ {F : Type 0} where
  abbrev pub is_settled : Bar F → Bool
  is_settled b = elim b.pct_change [ none ↦ false | some _ ↦ true ]

  abbrev pub latest_of : Option Date → List (Bar F) → Option Date
  latest_of best [] = best
  latest_of best (b ∷ bars) =
      let later : Option Date = elim best [
        | none ↦ some b.trade_date
        | some d ↦ some (if ltb d b.trade_date then b.trade_date else d)
      ] in
      latest_of later bars

  unfoldable pub latest_complete_trade_date : List (Bar F) → Option Date
  latest_complete_trade_date table = latest_of none (keep is_settled table)

  -- The days of the bars, the latest first.
  abbrev days_of : List (Bar F) → List Date
  days_of [] = []
  days_of (b ∷ bars) = insert_day b.trade_date (days_of bars)

  abbrev counted : List (Bar F) → List Date → Dict ℕ
  counted bars [] = []
  counted bars (d ∷ days) = (d, count (λ (b : Bar F). b.trade_date == d) bars) ∷ counted bars days

  -- The settled rows of each of the latest days.
  unfoldable pub settled_counts : List (Bar F) → Dict ℕ
  settled_counts table =
      let settled = keep is_settled table in counted settled (take count_window (days_of settled))

abbrev pub up_to : Date → Dict ℕ → Dict ℕ
up_to latest = keep (λ (c : ℕ × ℕ). leb c.0 latest)

abbrev baseline : ℕ → Dict ℕ → ℕ
baseline best [] = best
baseline best ((d, c) ∷ counts) = baseline (if ltb best c then c else best) counts

abbrev earliest : Option Date → List Date → Option Date
earliest best [] = best
earliest best (d ∷ days) =
    let earlier : Option Date = elim best [
      | none ↦ some d
      | some e ↦ some (if ltb d e then d else e)
    ] in
    earliest earlier days

-- The days from one on to another that are not on a weekend; the number is that of the rounds left.
abbrev pub weekdays_from : ℕ → Date → List Date
weekdays_from zero cur = []
weekdays_from (suc n) cur =
    let rest = weekdays_from n (cur + 1) in if ltb (weekday cur) 5 then cur ∷ rest else rest

-- The days with too few rows.
abbrev partial_days : (ℕ → Bool) → Dict ℕ → List Date
partial_days few [] = []
partial_days few ((d, c) ∷ counts) =
    let rest = partial_days few counts in if few c then d ∷ rest else rest

-- Today counts from 17:00 on.
abbrev pub gap_cap : Date → Date → ℕ → Date
gap_cap latest today hour =
    let cap = if leb 17 hour then today else today - 1 in
    if ltb (latest + max_backfill_days) cap then latest + max_backfill_days else cap

abbrev circuit_breaker : ℕ
circuit_breaker = 20

abbrev last_day : Date → List Date → Date
last_day d [] = d
last_day d (e ∷ days) = last_day e days

module _ {F : Type 0} ⦃fl : Float F⦄ where
  unfoldable pub first_partial : Date → List (Bar F) → Option Date
  unfolding settled_counts
  first_partial latest table =
      let counts = up_to latest (settled_counts table) in
      let most = fl.literal 9 1 ⊗ fl.of_ℕ (baseline 0 counts) in
      earliest none (partial_days (λ c. fl.of_ℕ c <? most) counts)

  abbrev pub gap_start : Date → List (Bar F) → Date
  gap_start latest table = elim (first_partial latest table) [ none ↦ latest + 1 | some d ↦ d ]

  abbrev pub gap_after : List (Bar F) → Date → ℕ → Option Date → List Date
  gap_after table today hour none = []
  gap_after table today hour (some latest) =
      let start = gap_start latest table in
      weekdays_from (gap_cap latest today hour + 1 - start) start

  unfoldable pub detect_gap : List (Bar F) → Date → ℕ → List Date
  unfolding latest_complete_trade_date first_partial
  detect_gap table today hour = gap_after table today hour (latest_complete_trade_date table)

  -- The loop over the codes: the table and the rows written; `none` where a fetch raises.
  abbrev pub backfill_from :
      (Code → Option (List (Bar F))) → List Code → ℕ → ℕ → List (Bar F) → List (Bar F) × ℕ
  backfill_from fetch [] failures total table = (table, total)
  backfill_from fetch (code ∷ codes) failures total table = elim (fetch code) [
    | none ↦
        let rest = backfill_from fetch codes (failures + 1) total table in
        if leb circuit_breaker (failures + 1) then (table, total) else rest
    | some rows ↦
        let (table1, n) = sync_one_stock rows table in
        backfill_from fetch codes 0 (total + n) table1
  ]

  -- The codes of the latest pool snapshot over the span of the missing days.
  abbrev backfill_span :
      (Date × Date → Code → Option (List (Bar F)))
      → List Code
      → List Date
      → List (Bar F)
      → List (Bar F) × ℕ
  backfill_span fetch codes [] table = (table, 0)
  backfill_span fetch codes (d ∷ days) table =
      backfill_from (fetch (d, last_day d days)) codes 0 0 table

  unfoldable pub backfill_daily_k :
      (Date × Date → Code → Option (List (Bar F)))
      → List Code
      → List (Bar F)
      → Date
      → ℕ
      → List (Bar F) × ℕ
  unfolding detect_gap
  backfill_daily_k fetch codes table today hour =
      backfill_span fetch codes (detect_gap table today hour) table
