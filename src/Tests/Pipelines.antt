-- ===== src/Tests/Pipelines.antt =====
-- The pipeline's theorems at a Friday's failed index sync and at a Saturday's health check.
use stock_platform.Prelude.{
  ◌≡◌, refl, true, false, arith, none, some, List, [], ◌∷◌, length, first, keep,
}
use stock_platform.Calendar.{Date}
use stock_platform.Pipeline.Topology.{
  StepKey, TaskName, step, index_sync, factor_health_check, StepSpec, step_spec, step_index,
  effective_retry_max, weekly, daily, mon_fri, sat,
}
use stock_platform.Pipeline.Tables.{Db, Run, RunStatus, scheduler, scheduler_retry}
use stock_platform.Pipeline.Hooks.{
  Env, booked, step_run_date, ensure_run, start_booked, start_step, on_step_start, is_run,
}
use stock_platform.Pipeline.Finish.{
  Call, start, finish, replay, on_step_finish, finish_booked, finish_step, refresh_run,
  after_finish, retry_or_alert, schedule_retry, attempts_of, steps_of,
}
use stock_platform.Pipeline.Finish.Laws.{OneRow, replay-OneRow}
use stock_platform.Pipeline.Finish.Outcome.{
  booked_run, RunAgrees, on_step_finish-RunAgrees, has_alert,
}
use stock_platform.Pipeline.Finish.Failure.{Handled, on_step_finish-Handled, on_step_finish_retried}
use stock_platform.Pipeline.Finish.Weekend.{no_sunday_step, is_open, on_step_finish_weekend}
use stock_platform.Pipeline.Patrol.{Missing, patrol_missing}
use stock_platform.Pipeline.Patrol.Laws.{SameBooks}
use stock_platform.Pipeline.Patrol.Schedule.{reported, is_about}
use stock_platform.Pipeline.Patrol.Report.{patrol_missing-reported}

-- Friday, 11 September 2026, and the Saturday after it.
abbrev friday : Date
friday = 739870

abbrev env_at : Date → Env
env_at d = record {
  settings = record {
    pipeline_enabled = true;
    pipeline_step_retry_max = 2;
    pipeline_step_retry_gap_min = 5;
  };
  today = d;
  now = 1000;
  calendar = none;
  has_scheduler = true;
}

abbrev empty : Db
empty = record { runs = []; steps = []; next_run = 1; next_step = 1; alerts = []; jobs = [] }

abbrev index_sync_spec : StepSpec
index_sync_spec = record {
  step_key = index_sync;
  pipeline = daily;
  hour = 16;
  minute = 35;
  weekday = mon_fri;
  critical = false;
  retry_max = none;
}

abbrev health_spec : StepSpec
health_spec = record {
  step_key = factor_health_check;
  pipeline = weekly;
  hour = 9;
  minute = 30;
  weekday = sat;
  critical = false;
  retry_max = none;
}

abbrev index_sync_task : TaskName
index_sync_task = step index_sync

-- The cron job's start, its failure, and the start of the retry.
abbrev calls : List Call
calls =
    start (env_at friday) (some 1) index_sync_task
    ∷ finish (env_at friday) (some 1) false (some (7 ∷ [])) scheduler index_sync_task
    ∷ start (env_at friday) (some 2) index_sync_task
    ∷ []

index_sync-booked : booked (env_at friday) index_sync_task ≡ some (index_sync_spec, friday)
unfolding booked step_spec step_index step_run_date
index_sync-booked = refl

health-booked : booked (env_at 739871) (step factor_health_check) ≡ some (health_spec, 739871)
unfolding booked step_spec step_index step_run_date
health-booked = refl

replay-OneRow_example : OneRow (replay calls empty)
replay-OneRow_example = replay-OneRow calls empty ((λ run key. omega arith), (λ d p. omega arith))

on_step_finish-RunAgrees_example :
    RunAgrees friday daily
      (booked_run (env_at friday) index_sync_spec friday (replay calls empty))
      (on_step_finish
        (env_at friday)
        (some 2)
        true
        none
        scheduler_retry
        index_sync_task
        (replay calls empty))
on_step_finish-RunAgrees_example =
    on_step_finish-RunAgrees (env_at friday) (some 2) true none scheduler_retry index_sync_task
      (replay calls empty) index_sync-booked

abbrev failed_db : Db
failed_db =
    on_step_finish (env_at friday) (some 2) false none scheduler index_sync_task
      (replay calls empty)

on_step_finish-Handled_example :
    Handled
      (env_at friday)
      index_sync_spec
      friday
      scheduler
      (attempts_of
        (booked_run (env_at friday) index_sync_spec friday (replay calls empty))
        index_sync
        failed_db)
      failed_db
on_step_finish-Handled_example =
    on_step_finish-Handled (env_at friday) (some 2) none scheduler index_sync_task
      (replay calls empty) index_sync-booked refl

abbrev retried_db : Db
retried_db =
    on_step_finish (env_at friday) (some 2) false none scheduler_retry index_sync_task
      (replay calls empty)

on_step_finish_retried_example :
    (retried_db.jobs ≡ (replay calls empty).jobs) × (has_alert friday index_sync retried_db ≡ true)
on_step_finish_retried_example =
    on_step_finish_retried (env_at friday) (some 2) none index_sync_task (replay calls empty)
      index_sync-booked

abbrev weekend_db : Db
weekend_db =
    on_step_finish (env_at 739871) (some 2) true none scheduler (step factor_health_check) empty

only_health :
    no_sunday_step (steps_of (booked_run (env_at 739871) health_spec 739871 empty) weekend_db)
    ≡ true
unfolding on_step_finish booked step_spec step_index step_run_date finish_booked ensure_run
    finish_step refresh_run after_finish
only_health = refl

on_step_finish_weekend_example :
    (r : Run) × (first (is_run 739871 weekly) weekend_db.runs ≡ some r) × (is_open r.status ≡ true)
on_step_finish_weekend_example =
    on_step_finish_weekend (env_at 739871) (some 2) true none scheduler (step factor_health_check)
      empty health-booked refl only_health

abbrev patrolled : Db
patrolled = record {
  runs =
      record {
        id = 1;
        run_date = friday;
        pipeline_type = daily;
        status = RunStatus.running;
        started_at = 0;
        finished_at = none;
      }
      ∷ [];
  steps = [];
  next_run = 2;
  next_step = 1;
  alerts = [];
  jobs = [];
}

patrol_missing-reported_example :
    (missing : List Missing) × ((patrol_missing patrolled friday).0 ≡ some missing)
    × ((key : StepKey) → keep (is_about key) missing ≡ reported patrolled friday friday key)
    × SameBooks patrolled (patrol_missing patrolled friday).1
patrol_missing-reported_example = patrol_missing-reported patrolled friday refl (omega arith)

-- A failed cron run and its retry are two attempts, and the failure left a retry job.
replay_runs :
    (attempts_of 1 index_sync (replay calls empty) ≡ 2)
    × (length (replay calls empty).jobs ≡ 1)
    × (length (replay calls empty).runs ≡ 1)
unfolding replay on_step_start on_step_finish booked step_spec step_index step_run_date
    finish_booked ensure_run start_booked start_step finish_step refresh_run after_finish
    retry_or_alert schedule_retry effective_retry_max
replay_runs = (refl, refl, refl)
