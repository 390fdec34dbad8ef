-- ===== src/Startup/Days.antt =====
-- Laws of `detect_gap`.
use stock_platform.Prelude.{
  ℕ, zero, suc, ◌+◌, ◌-◌, ◌≤◌, ◌≡◌, arith, ◌&&◌, Bool, false, leb, ltb, Option, none, some, List,
  elem, subst, sym, ◌∙◌, ap,
}
use stock_platform.Float.{Float}
use stock_platform.Calendar.{Date, weekday}
use stock_platform.Kline.Rows.{Bar}
use stock_platform.Startup.{
  weekdays_from, latest_complete_trade_date, first_partial, gap_start, gap_cap, gap_after,
  detect_gap,
}

elem-weekdays_from :
    (n : ℕ) (cur d : Date)
    → elem d (weekdays_from n cur) ≡ (leb cur d && ltb d (cur + n) && ltb (weekday d) 5)
elem-weekdays_from zero cur d = ground arith
elem-weekdays_from (suc n) cur d = ground (arith, elem-weekdays_from n (cur + 1) d)

early : (latest d : ℕ) (b c : Bool) → d ≤ latest → (leb (latest + 1) d && b && c) ≡ false
early latest d b c le = ground (arith, le)

abbrev start_after : Date → Option Date → Date
start_after latest found = elim found [ none ↦ latest + 1 | some d ↦ d ]

within :
    (start cap d : ℕ) (open_day : Bool)
    → (leb start d && ltb d (start + (cap + 1 - start)) && open_day)
      ≡ (leb start d && leb d cap && open_day)
within start cap d open_day = ground arith

-- The rounds reach the end of the gap.
elem-span :
    (start cap d : ℕ)
    → elem d (weekdays_from (cap + 1 - start) start)
      ≡ (leb start d && leb d cap && ltb (weekday d) 5)
elem-span start cap d =
    elem-weekdays_from (cap + 1 - start) start d ∙ within start cap d (ltb (weekday d) 5)

module _ {F : Type 0} ⦃fl : Float F⦄ where
  -- The gap is made of the days that are not on a weekend from its start, which is the first day with
  -- too few rows or else the day after the latest settled one, to its end; the rounds are enough.
  pub elem-detect_gap :
      (table : List (Bar F)) (today : Date) (hour : ℕ) (d : Date) {latest : Date}
      → latest_complete_trade_date table ≡ some latest
      → elem d (detect_gap table today hour)
        ≡ (leb (gap_start latest table) d && leb d (gap_cap latest today hour) && ltb (weekday d) 5)
  unfolding detect_gap
  elem-detect_gap table today hour d {latest = latest} e =
      let start = gap_start latest table in
      let cap = gap_cap latest today hour in
      subst
        (λ found.
          elem d (gap_after table today hour found)
          ≡ (leb start d && leb d cap && ltb (weekday d) 5))
        (sym e) (elem-span start cap d)

  -- Where no recent day has too few rows, the gap holds no day up to the latest settled one, although
  -- there may be weekdays without any row among them.
  pub detect_gap_hole :
      (table : List (Bar F)) (today : Date) (hour : ℕ) (d : Date) {latest : Date}
      → latest_complete_trade_date table ≡ some latest
      → first_partial latest table ≡ none
      → d ≤ latest
      → elem d (detect_gap table today hour) ≡ false
  detect_gap_hole table today hour d {latest = latest} e whole le =
      let starts : gap_start latest table ≡ latest + 1 = ap (start_after latest) whole in
      elem-detect_gap table today hour d {latest = latest} e
      ∙ ap (λ t. leb t d && leb d (gap_cap latest today hour) && ltb (weekday d) 5) starts
      ∙ early latest d (leb d (gap_cap latest today hour)) (ltb (weekday d) 5) le
