-- ===== src/Calendar/Laws.antt =====
-- The next weekday, and the calendar at known dates.
use stock_platform.Prelude.{◌≤◌, ◌<◌, ◌≡◌, refl, arith}
use stock_platform.Calendar.{Date, weekday, year_month, iso_week, first_of_month, next_weekday}

-- The next weekday is a weekday after the date, and every date strictly between is on a weekend.
pub next_weekday_lem :
    (d : Date)
    → (d < next_weekday d)
      × (weekday (next_weekday d) < 5)
      × ((e : Date) → d < e → e < next_weekday d → 5 ≤ weekday e)
unfolding next_weekday
next_weekday_lem d = (ground arith, ground arith, λ e h k. ground arith)

-- 9 September 2026, a Wednesday, and 1 January 2027, in the last ISO week of 2026.
calendar_runs :
    (first_of_month 2026 9 ≡ 739860)
    × (year_month 739868 ≡ (2026, 9))
    × (weekday 739868 ≡ 2)
    × (iso_week (first_of_month 2027 1) ≡ (2026, 53))
    × (year_month (first_of_month 2027 1) ≡ (2027, 1))
calendar_runs = (refl, refl, refl, refl, refl)
