-- ===== src/Calendar.antt =====
-- Python's `date` by its proleptic ordinal (1 is Monday, 1 January of year 1): the parts of the
-- standard library that the engine uses, and `_next_weekday` of
-- backend/app/services/paper_service.py.
pub mod Laws
use stock_platform.Prelude.{
  ℕ, zero, suc, ◌+◌, ◌-◌, ◌*◌, ◌/◌, ◌%◌, Bool, true, false, ltb, leb, ◌==◌, ◌&&◌, ◌||◌,
  if◌then◌else◌, List, [], ◌∷◌, get_elem?, Option,
}
use stock_platform.Prelude.Dict.{get_or}

abbrev pub Date : Type 0
Date = ℕ

-- `d.weekday()`: 0 is Monday.
abbrev pub weekday : Date → ℕ
weekday d = (d + 6) % 7

abbrev days_before_month : ℕ → ℕ
days_before_month m =
    get_or 0
      (get_elem? (0 ∷ 0 ∷ 31 ∷ 59 ∷ 90 ∷ 120 ∷ 151 ∷ 181 ∷ 212 ∷ 243 ∷ 273 ∷ 304 ∷ 334 ∷ []) m)

abbrev is_leap : ℕ → Bool
is_leap y = y % 4 == 0 && ((if y % 100 == 0 then false else true) || y % 400 == 0)

abbrev days_before_year : ℕ → ℕ
days_before_year y = let p = y - 1 in p * 365 + p / 4 - p / 100 + p / 400

-- `date(y, m, 1).toordinal()`
abbrev pub first_of_month : ℕ → ℕ → Date
first_of_month y m =
    days_before_year y + days_before_month m + (if ltb 2 m && is_leap y then 1 else 0) + 1

-- Year and month of an ordinal, by cycles of 400, 100, 4 and 1 years.
abbrev pub year_month : Date → ℕ × ℕ
year_month d =
    let n = d - 1 in
    let n400 = n / 146_097 in
    let r400 = n % 146_097 in
    let n100 = r400 / 36_524 in
    let r100 = r400 % 36_524 in
    let n4 = r100 / 1461 in
    let r4 = r100 % 1461 in
    let n1 = r4 / 365 in
    let r1 = r4 % 365 in
    let year = n400 * 400 + 1 + n100 * 100 + n4 * 4 + n1 in
    let guess = (r1 + 50) / 32 in
    let before = days_before_month guess + (if ltb 2 guess && is_leap year then 1 else 0) in
    if n1 == 4 || n100 == 4
    then (year - 1, 12)
    else (year, if ltb r1 before then guess - 1 else guess)

-- The Monday of ISO week 1 of a year.
abbrev iso_week1_monday : ℕ → Date
iso_week1_monday y =
    let first_day = first_of_month y 1 in
    let first_weekday = (first_day + 6) % 7 in
    let monday = first_day - first_weekday in if ltb 3 first_weekday then monday + 7 else monday

-- `d.isocalendar()[:2]`: ISO year and week.
abbrev pub iso_week : Date → ℕ × ℕ
iso_week d =
    let year = (year_month d).0 in
    let monday = iso_week1_monday year in
    let before = iso_week1_monday (year - 1) in
    let after = iso_week1_monday (year + 1) in
    if ltb d monday
    then (year - 1, (d - before) / 7 + 1)
    else if leb after d
    then (year + 1, 1)
    else (year, (d - monday) / 7 + 1)

abbrev pub pair_eq : ℕ × ℕ → ℕ × ℕ → Bool
pair_eq a b = a.0 == b.0 && a.1 == b.1

-- `while nd.weekday() >= 5: nd += 1`, on fuel.
skip_weekend : ℕ → Date → Date
skip_weekend zero nd = nd
skip_weekend (suc fuel) nd =
    let rest = skip_weekend fuel (nd + 1) in if leb 5 (weekday nd) then rest else nd

-- Two rounds are enough, since only Saturday and Sunday are skipped.
unfoldable pub next_weekday : Date → Date
unfolding skip_weekend
next_weekday d = skip_weekend 2 (d + 1)
