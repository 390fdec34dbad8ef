-- ===== src/Backfill/DailyLog.antt =====
-- The log row of a polling job: `_log_tick_summary` of backend/app/data/history_backfill.py and
-- `log_daily_summary` of backend/app/services/admin_service.py, and the tick that calls them. A moment
-- is a number of seconds; the clock is read once in a call.
use stock_platform.Prelude.{
  ℕ, ◌+◌, ◌≤◌, ◌==◌, ◌≡◌, refl, arith, ◌&&◌, Bool, ltb, leb, if◌then◌else◌, Option, none, some,
  List, [], ◌∷◌, ◌++◌, count, Option-cases, inl, inr,
}
use stock_platform.Prelude.Rows.{update, count-update, count-append-one}
use stock_platform.Float.{Float}
use stock_platform.Calendar.{Date}
use stock_platform.Backfill.State.{Bars}
use stock_platform.Backfill.Visit.{Fetch}
use stock_platform.Backfill.Seed.{Table, Pool}
use stock_platform.Backfill.Tick.{
  Summary, disabled, quiet_window, tick_failed, batch, Settings, tick,
}

pub data LogStatus : Type 0 where
  running success failed : LogStatus

-- The one error text that a tick's summary holds.
pub data Complaint : Type 0 where
  broken_tick : Complaint

-- A row of `sa_admin_task_log` with the columns that are used here; the trigger is the scheduler.
pub record TaskLog : Type 0 where
  pub id : ℕ
  pub task_name : ℕ
  pub started_at : ℕ
  pub finished_at : Option ℕ
  pub status : LogStatus
  pub rows_affected : Option ℕ
  pub error : Option Complaint

pub record Logs : Type 0 where
  pub rows : List TaskLog
  pub next_id : ℕ

-- What a summary writes.
pub record Entry : Type 0 where
  pub rows : ℕ
  pub status : LogStatus
  pub error : Option Complaint

abbrev pub is_today : ℕ → ℕ → TaskLog → Bool
is_today task day_start r = r.task_name == task && leb day_start r.started_at

abbrev later_row : TaskLog → Option TaskLog → Option TaskLog
later_row r none = some r
later_row r (some s) = some (if ltb r.started_at s.started_at then s else r)

-- `ORDER BY started_at DESC LIMIT 1`
abbrev pub latest_today : ℕ → ℕ → List TaskLog → Option TaskLog
latest_today task day_start [] = none
latest_today task day_start (r ∷ rows) =
    let rest = latest_today task day_start rows in
    if is_today task day_start r then later_row r rest else rest

abbrev pub finish_log : Entry → ℕ → TaskLog → TaskLog
finish_log e now r = record r {
  finished_at = some now;
  status = e.status;
  rows_affected = some e.rows;
  error = e.error;
}

abbrev opened : ℕ → ℕ → ℕ → TaskLog
opened id task now = record {
  id = id;
  task_name = task;
  started_at = now;
  finished_at = none;
  status = running;
  rows_affected = none;
  error = none;
}

abbrev pub write_summary : ℕ → Entry → ℕ → Logs → Option TaskLog → Logs
write_summary task e now logs none = record {
  rows = logs.rows ++ (finish_log e now (opened logs.next_id task now) ∷ []);
  next_id = logs.next_id + 1;
}
write_summary task e now logs (some r) = record logs {
  rows = update (λ (s : TaskLog). s.id == r.id) (finish_log e now) logs.rows;
}

unfoldable pub log_daily_summary : ℕ → Entry → (day_start now : ℕ) → Logs → Logs
log_daily_summary task e day_start now logs =
    write_summary task e now logs (latest_today task day_start logs.rows)

-- A skipped tick is not logged.
unfoldable pub log_tick_summary : ℕ → Summary → (day_start now : ℕ) → Logs → Logs
log_tick_summary task disabled day_start now logs = logs
log_tick_summary task quiet_window day_start now logs = logs
log_tick_summary task tick_failed day_start now logs =
    log_daily_summary task (record { rows = 0; status = failed; error = some broken_tick })
      day_start now logs
log_tick_summary task (batch synced rows done parked remaining) day_start now logs =
    log_daily_summary task (record { rows = rows; status = success; error = none }) day_start now
      logs

module _ (F : Type 0) ⦃fl : Float F⦄ where
  -- The tick with the row that it writes at its end.
  unfoldable pub logged_tick :
      Settings
      → Fetch
      → Date
      → (hour minute day_start now task : ℕ) → Pool
      → Bars
      → Table
      → Logs
      → Table × Bars × Logs
  logged_tick s fetch today hour minute day_start now task pool bars t logs =
      let (t1, bars1, summary) = tick F s fetch today hour minute pool bars t in
      (t1, bars1, log_tick_summary task summary day_start now logs)

latest_today-none :
    (task day_start : ℕ) (rows : List TaskLog)
    → latest_today task day_start rows ≡ none
    → count (is_today task day_start) rows ≡ 0
latest_today-none task day_start [] h = refl
latest_today-none task day_start (r ∷ rows) h =
    elim (Option-cases (latest_today task day_start rows)) [
      | inl e ↦ ground (arith, h, e, latest_today-none task day_start rows)
      | inr (s, e) ↦ ground (arith, h, e, latest_today-none task day_start rows)
    ]

write_summary_lem :
    (task : ℕ) (e : Entry) (day_start now : ℕ) (logs : Logs) (found : Option TaskLog)
    → latest_today task day_start logs.rows ≡ found
    → count (is_today task day_start) logs.rows ≤ 1
    → count (is_today task day_start) (write_summary task e now logs found).rows ≤ 1
write_summary_lem task e day_start now logs none k h =
    let row = finish_log e now (opened logs.next_id task now) in
    ground (
      arith,
      latest_today-none task day_start logs.rows k,
      count-append-one (is_today task day_start) logs.rows row,
    )
write_summary_lem task e day_start now logs (some r) k h = ground (
  arith,
  h,
  count-update (is_today task day_start) (λ (s : TaskLog). s.id == r.id) (finish_log e now)
      logs.rows (λ x. refl),
)

-- A job has one row for each day, however often it reports.
pub log_daily_summary_lem :
    (task : ℕ) (e : Entry) (day_start now : ℕ) (logs : Logs)
    → count (is_today task day_start) logs.rows ≤ 1
    → count (is_today task day_start) (log_daily_summary task e day_start now logs).rows ≤ 1
unfolding log_daily_summary
log_daily_summary_lem task e day_start now logs h =
    write_summary_lem task e day_start now logs (latest_today task day_start logs.rows) refl h
