-- ===== src/Pipeline/Finish/Outcome.antt =====
-- What one hook does to the step, the run, the retry jobs and the alerts.
use stock_platform.Prelude.{
  ℕ, ◌+◌, ◌*◌, ◌≡◌, refl, ◌==◌, Bool, true, false, Option, none, some, List, first, arith, ◌&&◌,
  ◌∙◌, ap, sym, subst, Option-cases, inl, inr, keep,
}
use stock_platform.Calendar.{Date}
use stock_platform.Pipeline.Topology.{
  StepKey, PipelineType, StepSpec, TaskName, same_key, same_pipeline, daily, weekly,
}
use stock_platform.Pipeline.Tables.{Db, Run, Step, Text, Trigger, Detail, StepStatus}
use stock_platform.Pipeline.Status.{run_is_final}
use stock_platform.Pipeline.Hooks.{
  Env, booked, ensure_run, start_step, on_step_start, start_booked, start_if, is_run, is_step,
  reset_run, new_run, new_step, restart,
}
use stock_platform.Pipeline.Finish.{
  finish_step, refresh_run, schedule_retry, write_alert, on_step_finish, attempts_of, settle_run,
  status_of, steps_of, finish_booked, after_finish, finish_if, is_job, is_alert,
}
use stock_platform.Pipeline.Finish.Laws.{after_finish-tables}
use stock_platform.Prelude.Rows.{apply, first-put, put_row, first-update, first-upsert}

is_step_self : (run : ℕ) (key : StepKey) → ((run == run) && same_key key key) ≡ true
is_step_self run key = ground arith

is_run_self : (d : Date) (p : PipelineType) → ((d == d) && same_pipeline p p) ≡ true
is_run_self d daily = ground arith
is_run_self d weekly = ground arith

-- The run that a hook books into: the row of its date and pipeline, after it was made sure of.
abbrev pub booked_run : Env → StepSpec → Date → Db → ℕ
booked_run env spec d db = (ensure_run env d spec.pipeline db).1

ensure_run-steps :
    (env : Env) (d : Date) (p : PipelineType) (db : Db) → (ensure_run env d p db).0.steps ≡ db.steps
unfolding ensure_run
ensure_run-steps env d p db = refl

start_step-attempts :
    (env : Env) (log : Option ℕ) (run : ℕ) (key : StepKey) (db : Db)
    → attempts_of run key (start_step env log run key db) ≡ attempts_of run key db + 1
unfolding start_step
start_step-attempts env log run key db =
    let row = new_step db.next_step key run StepStatus.running (some env.now) log in
    let e =
      first-put (is_step run key) (restart env log) row db.steps (λ st. refl)
        (is_step_self run key) in
    elim (Option-cases (first (is_step run key) db.steps)) [
      | inl n ↦ ground (arith, e, n)
      | inr (st, n) ↦ ground (arith, e, n)
    ]

start_booked-attempts :
    (env : Env) (log : Option ℕ) (spec : StepSpec) (d : Date) (db : Db)
    → let run = booked_run env spec d db in
      attempts_of run spec.step_key (start_booked env log spec d db)
      ≡ attempts_of run spec.step_key db + 1
unfolding start_booked
start_booked-attempts env log spec d db =
    let (db1, run) = ensure_run env d spec.pipeline db in
    start_step-attempts env log run spec.step_key db1
    ∙ ap
        (λ (l : List Step).
          (elim (first (is_step run spec.step_key) l) [ none ↦ 0 | some st ↦ st.attempts ]) + 1)
        (ensure_run-steps env d spec.pipeline db)

-- A start that is booked adds one to the attempts of its step, from 0 where the step has no row.
pub on_step_start-attempts_of :
    (env : Env) (log : Option ℕ) (task : TaskName) (db : Db) {spec : StepSpec} {d : Date}
    → booked env task ≡ some (spec, d)
    → let run = booked_run env spec d db in
      attempts_of run spec.step_key (on_step_start env log task db)
      ≡ attempts_of run spec.step_key db + 1
unfolding on_step_start
on_step_start-attempts_of env log task db {spec = spec} {d = d} e =
    ap (λ b. attempts_of (booked_run env spec d db) spec.step_key (start_if env log db b)) e
    ∙ start_booked-attempts env log spec d db

-- The run that a finish leaves has the status that its rows give it.
abbrev pub RunAgrees : Date → PipelineType → ℕ → Db → Type 0
RunAgrees d p run db =
    (r : Run) × (first (is_run d p) db.runs ≡ some r) × (r.status ≡ status_of p (steps_of run db))

ensure_run-first :
    (env : Env) (d : Date) (p : PipelineType) (db : Db)
    → (r : Run) × (first (is_run d p) (ensure_run env d p db).0.runs ≡ some r)
unfolding ensure_run
ensure_run-first env d p db = (
  put_row reset_run (new_run env d p db.next_run) (first (is_run d p) db.runs),
  first-put (is_run d p) reset_run (new_run env d p db.next_run) db.runs (λ r. refl)
      (is_run_self d p),
)

refresh_run-RunAgrees :
    (env : Env) (d : Date) (p : PipelineType) (run : ℕ) (db : Db) {r : Run}
    → first (is_run d p) db.runs ≡ some r
    → RunAgrees d p run (refresh_run env d p run db)
unfolding refresh_run
refresh_run-RunAgrees env d p run db {r = r} e =
    let steps = steps_of run db in
    let settle = settle_run env (status_of p steps) (run_is_final p steps) in
    (settle r, first-update (is_run d p) settle db.runs (λ r. refl) ∙ ap (apply settle) e, refl)

finish_step-runs :
    (env : Env) (log : Option ℕ) (succeeded : Bool) (error : Option Text) (run : ℕ) (key : StepKey)
    (db : Db)
    → (finish_step env log succeeded error run key db).runs ≡ db.runs
unfolding finish_step
finish_step-runs env log succeeded error run key db = refl

finish_booked-RunAgrees :
    (env : Env) (log : Option ℕ) (succeeded : Bool) (error : Option Text) (spec : StepSpec)
    (d : Date) (db : Db)
    → let b = finish_booked env log succeeded error spec d db in RunAgrees d spec.pipeline b.1 b.0
unfolding finish_booked
finish_booked-RunAgrees env log succeeded error spec d db =
    let (db1, run) = ensure_run env d spec.pipeline db in
    let (r, e) = ensure_run-first env d spec.pipeline db in
    refresh_run-RunAgrees env d spec.pipeline run
      (finish_step env log succeeded error run spec.step_key db1)
      (ap (first (is_run d spec.pipeline))
          (finish_step-runs env log succeeded error run spec.step_key db1)
        ∙ e)

RunAgrees-same :
    (d : Date) (p : PipelineType) (run : ℕ) (db db' : Db)
    → db'.steps ≡ db.steps
    → db'.runs ≡ db.runs
    → RunAgrees d p run db
    → RunAgrees d p run db'
RunAgrees-same d p run db db' e e' (r, h, k) = (
  r,
  ap (first (is_run d p)) e' ∙ h,
  k ∙ ap (λ (l : List Step). status_of p (keep (λ (st : Step). st.run_id == run) l)) (sym e),
)

pub finish_booked-run :
    (env : Env) (log : Option ℕ) (succeeded : Bool) (error : Option Text) (spec : StepSpec)
    (d : Date) (db : Db)
    → (finish_booked env log succeeded error spec d db).1 ≡ booked_run env spec d db
unfolding finish_booked
finish_booked-run env log succeeded error spec d db = refl

-- After a finish that is booked, the run of its date and pipeline has the status that is computed
-- from all the step rows of that run as they are in the tables then.
pub on_step_finish-RunAgrees :
    (env : Env) (log : Option ℕ) (succeeded : Bool) (error : Option Text) (trigger : Trigger)
    (task : TaskName) (db : Db) {spec : StepSpec} {d : Date}
    → booked env task ≡ some (spec, d)
    → RunAgrees d spec.pipeline
        (booked_run env spec d db)
        (on_step_finish env log succeeded error trigger task db)
unfolding on_step_finish
on_step_finish-RunAgrees env log succeeded error trigger task db {spec = spec} {d = d} e =
    let b = finish_booked env log succeeded error spec d db in
    let after = after_finish env succeeded error trigger spec d b in
    let (h, k) = after_finish-tables env succeeded error trigger spec d b in
    let same =
      subst (λ run. RunAgrees d spec.pipeline run b.0)
        (finish_booked-run env log succeeded error spec d db)
        (finish_booked-RunAgrees env log succeeded error spec d db) in
    subst
      (λ x.
        RunAgrees d spec.pipeline (booked_run env spec d db)
          (finish_if env log succeeded error trigger db x))
      (sym e) (RunAgrees-same d spec.pipeline (booked_run env spec d db) b.0 after h k same)

-- A retry job of the step, and an alert of the step on the day.
abbrev pub found {ℓ} : {A : Type ℓ} → Option A → Bool
found none = false
found (some a) = true

abbrev pub has_job : StepKey → ℕ → Db → Bool
has_job key attempts db = found (first (is_job key attempts) db.jobs)

abbrev pub has_alert : Date → StepKey → Db → Bool
has_alert d key db = found (first (is_alert d key) db.alerts)

pub schedule_retry-has_job :
    (env : Env) (key : StepKey) (attempts : ℕ) (db : Db)
    → env.has_scheduler ≡ true
    → has_job key attempts (schedule_retry env key attempts db) ≡ true
unfolding schedule_retry
schedule_retry-has_job env key attempts db h =
    let at = env.now + env.settings.pipeline_step_retry_gap_min * 60_000_000 in
    ground (
      arith,
      first-upsert (is_job key attempts)
          (record { step_key = key; attempts = attempts; run_at = at }) db.jobs (ground arith),
    )

pub write_alert-has_alert :
    (d : Date) (key : StepKey) (detail : Detail) (db : Db)
    → has_alert d key (write_alert d key detail db) ≡ true
unfolding write_alert
write_alert-has_alert d key detail db = ground (
  arith,
  first-upsert (is_alert d key) (record { check_date = d; step_key = key; detail = detail })
      db.alerts (ground arith),
)
