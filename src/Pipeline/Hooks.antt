-- ===== src/Pipeline/Hooks.antt =====
-- The bookkeeping hooks of backend/app/services/pipeline_service.py: `on_step_start`,
-- `on_step_finish` and what they call. A hook reads the clock once here; an exception in a hook is
-- swallowed by the code, and none arises on well-typed rows.
use stock_platform.Prelude.{
  ℕ, ◌+◌, ◌==◌, ◌&&◌, Bool, true, false, leb, if◌then◌else◌, Option, none, some, List, first, elem,
}
use stock_platform.Prelude.Rows.{put}
use stock_platform.Calendar.{Date, weekday}
use stock_platform.Pipeline.Topology.{
  StepKey, TaskName, PipelineType, daily, weekly, StepSpec, same_key, same_pipeline, step_seq,
  step_spec,
}
use stock_platform.Pipeline.Tables.{
  Db, Run, Step, Text, Datetime, StepStatus, Trigger, scheduler, scheduler_retry, manual, Detail,
  failure, Alert, Job, is_failed,
}
use stock_platform.Pipeline.Tables

pub record Settings : Type 0 where
  pub pipeline_enabled : Bool
  pub pipeline_step_retry_max : ℕ
  pub pipeline_step_retry_gap_min : ℕ

-- What a hook reads besides the tables: the settings, the clock, the trade calendar if it loaded,
-- and whether a scheduler runs in the process.
pub record Env : Type 0 where
  pub settings : Settings
  pub today : Date
  pub now : Datetime
  pub calendar : Option (List Date)
  pub has_scheduler : Bool

abbrev pub is_trade_day : Option (List Date) → Date → Bool
is_trade_day calendar d =
    if leb 5 (weekday d) then false else elim calendar [ none ↦ true | some days ↦ elem d days ]

unfoldable pub step_run_date : Env → StepSpec → Option Date
step_run_date env spec = elim spec.pipeline [
  | daily ↦ if is_trade_day env.calendar env.today then some env.today else none
  | weekly ↦ some env.today
]

-- The guards that both hooks begin with: the spec and the run date, if the step is booked.
unfoldable pub booked : Env → TaskName → Option (StepSpec × Date)
booked env task = elim (step_spec task) [
  | none ↦ none
  | some spec ↦
      if env.settings.pipeline_enabled
      then elim (step_run_date env spec) [ none ↦ none | some d ↦ some (spec, d) ]
      else none
]

abbrev pub is_run : Date → PipelineType → Run → Bool
is_run d p r = r.run_date == d && same_pipeline r.pipeline_type p

abbrev pub is_step : ℕ → StepKey → Step → Bool
is_step run key st = st.run_id == run && same_key st.step_key key

abbrev pub new_run : Env → Date → PipelineType → ℕ → Run
new_run env d p id = record {
  id = id;
  run_date = d;
  pipeline_type = p;
  status = Tables.RunStatus.running;
  started_at = env.now;
  finished_at = none;
}

abbrev pub reset_run : Run → Run
reset_run r = record r { status = Tables.RunStatus.running }

-- The id of the run, which `_ensure_run` has made sure of.
abbrev pub run_id_of : Date → PipelineType → List Run → ℕ
run_id_of d p runs = elim (first (is_run d p) runs) [ none ↦ 0 | some r ↦ r.id ]

-- `_ensure_run`: an upsert takes the next id also where it updates.
unfoldable pub ensure_run : Env → Date → PipelineType → Db → Db × ℕ
ensure_run env d p db =
    let runs = put (is_run d p) reset_run (new_run env d p db.next_run) db.runs in
    (record db { runs = runs; next_run = db.next_run + 1 }, run_id_of d p runs)

abbrev pub new_step : ℕ → StepKey → ℕ → StepStatus → Option Datetime → Option ℕ → Step
new_step id key run status started log = record {
  id = id;
  run_id = run;
  step_key = key;
  seq = step_seq key;
  status = status;
  attempts = 1;
  started_at = started;
  finished_at = none;
  duration_ms = none;
  error = none;
  task_log_id = log;
}

abbrev pub restart : Env → Option ℕ → Step → Step
restart env log st = record st {
  status = Tables.StepStatus.running;
  attempts = st.attempts + 1;
  started_at = some env.now;
  task_log_id = log;
  error = none;
}

-- The upsert of `on_step_start`.
unfoldable pub start_step : Env → Option ℕ → ℕ → StepKey → Db → Db
start_step env log run key db =
    let row = new_step db.next_step key run Tables.StepStatus.running (some env.now) log in
    record db {
      steps = put (is_step run key) (restart env log) row db.steps;
      next_step = db.next_step + 1;
    }

-- The hook past its guards.
unfoldable pub start_booked : Env → Option ℕ → StepSpec → Date → Db → Db
start_booked env log spec d db =
    let (db1, run) = ensure_run env d spec.pipeline db in start_step env log run spec.step_key db1

abbrev pub start_if : Env → Option ℕ → Db → Option (StepSpec × Date) → Db
start_if env log db none = db
start_if env log db (some (spec, d)) = start_booked env log spec d db

unfoldable pub on_step_start : Env → Option ℕ → TaskName → Db → Db
on_step_start env log task db = start_if env log db (booked env task)
