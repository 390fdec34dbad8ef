-- ===== src/Pipeline/Finish.antt =====
-- `on_step_finish` of backend/app/services/pipeline_service.py, with `_schedule_retry` and
-- `_write_alert`.
pub mod Laws
pub mod Outcome
pub mod Failure
pub mod Weekend
use stock_platform.Prelude.{
  ℕ, ◌+◌, ◌-◌, ◌*◌, ◌/◌, ◌==◌, ◌&&◌, Bool, true, false, leb, if◌then◌else◌, Option, none, some,
  List, [], ◌∷◌, ◌++◌, keep, first, exists, zero, suc,
}
use stock_platform.Prelude.Rows.{update, put, upsert}
use stock_platform.Prelude.Int.{ℤ, pos, negsuc}
use stock_platform.Prelude.Dict.{get_or}
use stock_platform.Calendar.{Date}
use stock_platform.Pipeline.Topology.{
  StepKey, TaskName, PipelineType, StepSpec, same_key, step_index, effective_retry_max,
}
use stock_platform.Pipeline.Tables.{
  Db, Run, RunStatus, Step, Text, Datetime, StepStatus, success, failed, Trigger, scheduler,
  scheduler_retry, manual, Detail, failure, Alert, Job,
}
use stock_platform.Pipeline.Tables
use stock_platform.Pipeline.Status.{State, recompute_run_status, run_is_final}
use stock_platform.Pipeline.Hooks.{
  Env, booked, ensure_run, is_run, is_step, new_step, on_step_start,
}

-- `int((now - started).total_seconds() * 1000)`, which cuts towards zero.
abbrev pub elapsed_ms : Datetime → Datetime → ℤ
elapsed_ms started now =
    let back = (started - now) / 1000 in
    if leb started now
    then pos ((now - started) / 1000)
    else if back == 0
    then pos 0
    else negsuc (back - 1)

abbrev pub cut : ℕ → Text → Text
cut zero t = []
cut (suc n) [] = []
cut (suc n) (c ∷ t) = c ∷ cut n t

-- `(error or None) and error[:8192]`
abbrev short_error : Option Text → Option Text
short_error none = none
short_error (some []) = none
short_error (some (c ∷ t)) = some (cut 8192 (c ∷ t))

abbrev pub finish_row : Env → Option ℕ → Bool → Option Text → Step → Step
finish_row env log succeeded error st = record st {
  status = if succeeded then success else failed;
  finished_at = some env.now;
  duration_ms = some (elapsed_ms (get_or env.now st.started_at) env.now);
  error = short_error error;
  task_log_id = log;
}

-- The step's row, added first where the step never started, is finished.
unfoldable pub finish_step : Env → Option ℕ → Bool → Option Text → ℕ → StepKey → Db → Db
finish_step env log succeeded error run key db =
    let finish = finish_row env log succeeded error in
    let row = new_step db.next_step key run Tables.StepStatus.pending none none in
    record db {
      steps = put (is_step run key) finish (finish row) db.steps;
      next_step = db.next_step + 1;
    }

abbrev pub state_of : Step → State
state_of st =
    (st.status, elim (step_index st.step_key) [ none ↦ false | some spec ↦ spec.critical ])

abbrev pub states_of : List Step → List State
states_of [] = []
states_of (st ∷ steps) = state_of st ∷ states_of steps

abbrev pub steps_of : ℕ → Db → List Step
steps_of run db = keep (λ (st : Step). st.run_id == run) db.steps

abbrev pub settle_run : Env → RunStatus → Bool → Run → Run
settle_run env status final r = record r {
  status = status;
  finished_at = if final then some env.now else r.finished_at;
}

-- The status that the rows of a run give it.
unfoldable pub status_of : PipelineType → List Step → RunStatus
status_of p steps = recompute_run_status (states_of steps) (run_is_final p steps)

-- The run's status is computed again from its rows.
unfoldable pub refresh_run : Env → Date → PipelineType → ℕ → Db → Db
refresh_run env d p run db =
    let steps = steps_of run db in
    let settle = settle_run env (status_of p steps) (run_is_final p steps) in
    record db { runs = update (is_run d p) settle db.runs }

abbrev pub is_job : StepKey → ℕ → Job → Bool
is_job key attempts j = same_key j.step_key key && j.attempts == attempts

unfoldable pub schedule_retry : Env → StepKey → ℕ → Db → Db
schedule_retry env key attempts db =
    let minutes = env.settings.pipeline_step_retry_gap_min in
    let job : Job = record {
      step_key = key;
      attempts = attempts;
      run_at = env.now + minutes * 60_000_000;
    } in
    if env.has_scheduler then record db { jobs = upsert (is_job key attempts) job db.jobs } else db

abbrev pub is_alert : Date → StepKey → Alert → Bool
is_alert d key a = a.check_date == d && same_key a.step_key key

unfoldable pub write_alert : Date → StepKey → Detail → Db → Db
write_alert d key detail db =
    let row : Alert = record { check_date = d; step_key = key; detail = detail } in
    record db { alerts = upsert (is_alert d key) row db.alerts }

abbrev pub is_scheduler : Trigger → Bool
is_scheduler t = elim t [ scheduler ↦ true | scheduler_retry ↦ false | manual ↦ false ]

abbrev text_or_empty : Option Text → Text
text_or_empty none = []
text_or_empty (some t) = t

abbrev pub detail_of : Trigger → Option Text → ℕ → Detail
detail_of trigger error attempts = failure attempts trigger (cut 2000 (text_or_empty error))

-- A failed step is tried again or alerted.
unfoldable pub retry_or_alert : Env → Date → StepSpec → Trigger → Option Text → ℕ → Db → Db
retry_or_alert env d spec trigger error attempts db =
    let limit = effective_retry_max env.settings.pipeline_step_retry_max spec in
    if is_scheduler trigger && leb attempts limit
    then schedule_retry env spec.step_key attempts db
    else write_alert d spec.step_key (detail_of trigger error attempts) db

abbrev pub attempts_of : ℕ → StepKey → Db → ℕ
attempts_of run key db = elim (first (is_step run key) db.steps) [
  | none ↦ 0
  | some st ↦ st.attempts
]

-- The hook past its guards, up to the commit of the step and the run.
unfoldable pub finish_booked : Env → Option ℕ → Bool → Option Text → StepSpec → Date → Db → Db × ℕ
finish_booked env log succeeded error spec d db =
    let (db1, run) = ensure_run env d spec.pipeline db in
    let db2 = finish_step env log succeeded error run spec.step_key db1 in
    (refresh_run env d spec.pipeline run db2, run)

-- What follows the commit.
unfoldable pub after_finish : Env → Bool → Option Text → Trigger → StepSpec → Date → Db × ℕ → Db
after_finish env succeeded error trigger spec d (db, run) =
    let attempts = attempts_of run spec.step_key db in
    if succeeded then db else retry_or_alert env d spec trigger error attempts db

abbrev pub finish_if :
    Env → Option ℕ → Bool → Option Text → Trigger → Db → Option (StepSpec × Date) → Db
finish_if env log succeeded error trigger db none = db
finish_if env log succeeded error trigger db (some (spec, d)) =
    after_finish env succeeded error trigger spec d
      (finish_booked env log succeeded error spec d db)

unfoldable pub on_step_finish : Env → Option ℕ → Bool → Option Text → Trigger → TaskName → Db → Db
on_step_finish env log succeeded error trigger task db =
    finish_if env log succeeded error trigger db (booked env task)

-- What the task runner and the retry job call, in the order of the calls.
pub data Call : Type 0 where
  start : Env → (log : Option ℕ) → TaskName → Call
  finish :
      Env
      → (log : Option ℕ) → (succeeded : Bool) → (error : Option Text) → Trigger
      → TaskName
      → Call

abbrev pub call : Call → Db → Db
call (start env log task) db = on_step_start env log task db
call (finish env log succeeded error trigger task) db =
    on_step_finish env log succeeded error trigger task db

unfoldable pub replay : List Call → Db → Db
replay [] db = db
replay (c ∷ calls) db = replay calls (call c db)
