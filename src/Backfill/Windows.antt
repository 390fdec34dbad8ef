-- ===== src/Backfill/Windows.antt =====
-- The windows of a back-fill: `history_start`, `target_start_for`, `chunk_windows` and
-- `_in_quiet_window` of backend/app/data/history_backfill.py.
pub mod Laws
use stock_platform.Prelude.{
  ℕ, zero, suc, ◌+◌, ◌-◌, ◌*◌, ◌&&◌, Bool, ltb, leb, if◌then◌else◌, Option, none, some, List, [],
  ◌∷◌,
}
use stock_platform.Calendar.{Date}

abbrev pub chunk_days : ℕ
chunk_days = 400

unfoldable pub history_start : ℕ → Date → Date
history_start years today = today - 365 * years

unfoldable pub target_start_for : ℕ → Option Date → Date → Date
unfolding history_start
target_start_for years none today = history_start years today
target_start_for years (some list_date) today =
    let start = history_start years today in if ltb start list_date then list_date else start

abbrev pub Window : Type 0
Window = Date × Date

-- `while cur <= end`, on fuel.
unfoldable pub windows_from : ℕ → ℕ → Date → Date → List Window
windows_from zero size cur end = []
windows_from (suc fuel) size cur end =
    let last = cur + size - 1 in
    let next = if ltb end last then end else last in
    let rest = windows_from fuel size (next + 1) end in
    if leb cur end then (cur, next) ∷ rest else []

-- One round for each day is enough, since every round moves on by a day at least.
unfoldable pub chunk_windows : Date → Date → ℕ → List Window
chunk_windows start end size = windows_from (end + 1 - start) size start end

-- 17:15 to 18:45, both minutes included.
unfoldable pub in_quiet_window : ℕ → ℕ → Bool
in_quiet_window hour minute =
    let minutes = hour * 60 + minute in leb (17 * 60 + 15) minutes && leb minutes (18 * 60 + 45)
