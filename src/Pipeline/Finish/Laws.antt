-- ===== src/Pipeline/Finish/Laws.antt =====
-- What the hooks keep of the tables: one row for each step of a run and one run for each date and
-- pipeline, the attempts, and the run's status.
use stock_platform.Prelude.{
  count, ℕ, ◌≤◌, ◌≡◌, refl, ◌==◌, Bool, true, Option, none, some, List, [], ◌∷◌, arith, ◌&&◌, sym,
  subst,
}
use stock_platform.Calendar.{Date}
use stock_platform.Pipeline.Topology.{
  StepKey, PipelineType, StepSpec, same_key, same_pipeline, daily, weekly,
}
use stock_platform.Pipeline.Tables.{Db, Run, Step, Text, Trigger, StepStatus}
use stock_platform.Pipeline.Hooks.{
  Env, booked, ensure_run, start_booked, start_if, start_step, on_step_start, is_run, is_step,
  reset_run, new_run, new_step, restart,
}
use stock_platform.Pipeline.Finish.{
  finish_step, refresh_run, schedule_retry, write_alert, retry_or_alert, on_step_finish,
  attempts_of, finish_row, settle_run, status_of, steps_of, finish_booked, after_finish, finish_if,
  Call, start, finish, call, replay,
}
use stock_platform.Pipeline.Status.{run_is_final}
use stock_platform.Prelude.Rows.{count-update, count-put}

-- The unique constraints of the two tables.
abbrev pub OneRow : Db → Type 0
OneRow db =
    ((run : ℕ) (key : StepKey) → count (is_step run key) db.steps ≤ 1)
    × ((d : Date) (p : PipelineType) → count (is_run d p) db.runs ≤ 1)

is_step-key :
    (run run' : ℕ) (key key' : StepKey) (st : Step)
    → ((run == run') && same_key key key') ≡ true
    → is_step run' key' st ≡ is_step run key st
is_step-key run run' key key' st h = ground arith

same_pipeline_lem : (p p' : PipelineType) → same_pipeline p p' ≡ true → p ≡ p'
same_pipeline_lem daily daily h = refl
same_pipeline_lem daily weekly h = cc
same_pipeline_lem weekly daily h = cc
same_pipeline_lem weekly weekly h = refl

is_run-key :
    (d d' : Date) (p p' : PipelineType) (r : Run)
    → ((d == d') && same_pipeline p p') ≡ true
    → is_run d' p' r ≡ is_run d p r
is_run-key d d' p p' r h = ground (arith, same_pipeline_lem p p')

-- The steps of the table under each part of the hooks.
ensure_run-OneRow :
    (env : Env) (d : Date) (p : PipelineType) (db : Db)
    → OneRow db
    → OneRow (ensure_run env d p db).0
unfolding ensure_run
ensure_run-OneRow env d p db (h, k) = (
  h,
  λ d' p'.
      count-put (is_run d' p') (is_run d p) reset_run (new_run env d p db.next_run) db.runs
        (λ r. refl) (λ e r. is_run-key d d' p p' r e) (k d' p'),
)

start_step-OneRow :
    (env : Env) (log : Option ℕ) (run : ℕ) (key : StepKey) (db : Db)
    → OneRow db
    → OneRow (start_step env log run key db)
unfolding start_step
start_step-OneRow env log run key db (h, k) = (
  λ run' key'.
      count-put (is_step run' key') (is_step run key) (restart env log)
        (new_step db.next_step key run StepStatus.running (some env.now) log) db.steps (λ st. refl)
        (λ e st. is_step-key run run' key key' st e) (h run' key'),
  k,
)

finish_step-OneRow :
    (env : Env) (log : Option ℕ) (succeeded : Bool) (error : Option Text) (run : ℕ) (key : StepKey)
    (db : Db)
    → OneRow db
    → OneRow (finish_step env log succeeded error run key db)
unfolding finish_step
finish_step-OneRow env log succeeded error run key db (h, k) =
    let finish = finish_row env log succeeded error in
    (
      λ run' key'.
          count-put (is_step run' key') (is_step run key) finish
            (finish (new_step db.next_step key run StepStatus.pending none none)) db.steps
            (λ st. refl) (λ e st. is_step-key run run' key key' st e) (h run' key'),
      k,
    )

refresh_run-OneRow :
    (env : Env) (d : Date) (p : PipelineType) (run : ℕ) (db : Db)
    → OneRow db
    → OneRow (refresh_run env d p run db)
unfolding refresh_run
refresh_run-OneRow env d p run db (h, k) =
    let settle =
      settle_run env (status_of p (steps_of run db)) (run_is_final p (steps_of run db)) in
    (
      h,
      λ d' p'.
          ground
            (arith, k d' p', count-update (is_run d' p') (is_run d p) settle db.runs (λ r. refl)),
    )

pub retry_or_alert-steps :
    (env : Env) (d : Date) (spec : StepSpec) (trigger : Trigger) (error : Option Text)
    (attempts : ℕ) (db : Db)
    → ((retry_or_alert env d spec trigger error attempts db).steps ≡ db.steps)
      × ((retry_or_alert env d spec trigger error attempts db).runs ≡ db.runs)
unfolding retry_or_alert schedule_retry write_alert
retry_or_alert-steps env d spec trigger error attempts db = ground arith

start_booked-OneRow :
    (env : Env) (log : Option ℕ) (spec : StepSpec) (d : Date) (db : Db)
    → OneRow db
    → OneRow (start_booked env log spec d db)
unfolding start_booked
start_booked-OneRow env log spec d db h =
    let (db1, run) = ensure_run env d spec.pipeline db in
    start_step-OneRow env log run spec.step_key db1 (ensure_run-OneRow env d spec.pipeline db h)

finish_booked-OneRow :
    (env : Env) (log : Option ℕ) (succeeded : Bool) (error : Option Text) (spec : StepSpec)
    (d : Date) (db : Db)
    → OneRow db
    → OneRow (finish_booked env log succeeded error spec d db).0
unfolding finish_booked
finish_booked-OneRow env log succeeded error spec d db h =
    let (db1, run) = ensure_run env d spec.pipeline db in
    refresh_run-OneRow env d spec.pipeline run _ (
      finish_step-OneRow env log succeeded error run spec.step_key db1
        (ensure_run-OneRow env d spec.pipeline db h))

pub after_finish-tables :
    (env : Env) (succeeded : Bool) (error : Option Text) (trigger : Trigger) (spec : StepSpec)
    (d : Date) (b : Db × ℕ)
    → ((after_finish env succeeded error trigger spec d b).steps ≡ b.0.steps)
      × ((after_finish env succeeded error trigger spec d b).runs ≡ b.0.runs)
unfolding after_finish
after_finish-tables env succeeded error trigger spec d (db, run) =
    ground
      (arith, retry_or_alert-steps env d spec trigger error (attempts_of run spec.step_key db) db)

OneRow-same : (db db' : Db) → db'.steps ≡ db.steps → db'.runs ≡ db.runs → OneRow db → OneRow db'
OneRow-same db db' e e' (h, k) = (
  λ run key. subst (λ l. count (is_step run key) l ≤ 1) (sym e) (h run key),
  λ d p. subst (λ l. count (is_run d p) l ≤ 1) (sym e') (k d p),
)

start_if-OneRow :
    (env : Env) (log : Option ℕ) (db : Db) (b : Option (StepSpec × Date))
    → OneRow db
    → OneRow (start_if env log db b)
start_if-OneRow env log db none h = h
start_if-OneRow env log db (some (spec, d)) h = start_booked-OneRow env log spec d db h

finish_if-OneRow :
    (env : Env) (log : Option ℕ) (succeeded : Bool) (error : Option Text) (trigger : Trigger)
    (db : Db) (b : Option (StepSpec × Date))
    → OneRow db
    → OneRow (finish_if env log succeeded error trigger db b)
finish_if-OneRow env log succeeded error trigger db none h = h
finish_if-OneRow env log succeeded error trigger db (some (spec, d)) h =
    let b = finish_booked env log succeeded error spec d db in
    let (e, e') = after_finish-tables env succeeded error trigger spec d b in
    OneRow-same b.0 (after_finish env succeeded error trigger spec d b) e e'
      (finish_booked-OneRow env log succeeded error spec d db h)

call-OneRow : (c : Call) (db : Db) → OneRow db → OneRow (call c db)
unfolding on_step_start on_step_finish
call-OneRow (start env log task) db h = start_if-OneRow env log db (booked env task) h
call-OneRow (finish env log succeeded error trigger task) db h =
    finish_if-OneRow env log succeeded error trigger db (booked env task) h

-- Whatever hooks run in whatever order, if at first no two step rows have the same run and key and
-- no two runs the same date and pipeline, then this is so after them.
pub replay-OneRow : (calls : List Call) (db : Db) → OneRow db → OneRow (replay calls db)
unfolding replay
replay-OneRow [] db h = h
replay-OneRow (c ∷ calls) db h = replay-OneRow calls (call c db) (call-OneRow c db h)
