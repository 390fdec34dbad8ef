-- ===== src/Pipeline/Finish/Failure.antt =====
-- What follows a failed step: a retry job, or an alert.
use stock_platform.Prelude.{
  ℕ, ◌≡◌, refl, Bool, true, false, if◌then◌else◌, Option, some, ◌&&◌, ◌∙◌, ap, sym, subst, leb,
  Bool-cases, inl, inr, arith,
}
use stock_platform.Calendar.{Date}
use stock_platform.Pipeline.Topology.{
  StepKey, PipelineType, StepSpec, TaskName, effective_retry_max,
}
use stock_platform.Pipeline.Tables.{Db, Text, Trigger, scheduler_retry, Detail}
use stock_platform.Pipeline.Hooks.{Env, booked, ensure_run}
use stock_platform.Pipeline.Finish.{
  write_alert, retry_or_alert, on_step_finish, attempts_of, finish_booked, finish_step, refresh_run,
  after_finish, finish_if, is_scheduler, detail_of,
}
use stock_platform.Pipeline.Finish.Laws.{retry_or_alert-steps}
use stock_platform.Pipeline.Finish.Outcome.{
  has_job, has_alert, booked_run, schedule_retry-has_job, write_alert-has_alert, finish_booked-run,
}

-- Whether a failed step is to be tried again.
abbrev pub retries : Env → StepSpec → Trigger → ℕ → Bool
retries env spec trigger attempts =
    is_scheduler trigger
    && leb attempts (effective_retry_max env.settings.pipeline_step_retry_max spec)

-- A failed step that was tried `attempts` times is handled: its retry job stands where it is to be
-- tried again, and its alert row where not.
abbrev pub Handled : Env → StepSpec → Date → Trigger → ℕ → Db → Type 0
Handled env spec d trigger attempts db =
    (if retries env spec trigger attempts
      then has_job spec.step_key attempts db
      else has_alert d spec.step_key db)
    ≡ true

retry_or_alert-Handled :
    (env : Env) (d : Date) (spec : StepSpec) (trigger : Trigger) (error : Option Text)
    (attempts : ℕ) (db : Db)
    → env.has_scheduler ≡ true
    → Handled env spec d trigger attempts (retry_or_alert env d spec trigger error attempts db)
unfolding retry_or_alert
retry_or_alert-Handled env d spec trigger error attempts db h =
    elim (Bool-cases (retries env spec trigger attempts)) [
      | inl e ↦ ground (arith, e, schedule_retry-has_job env spec.step_key attempts db h)
      | inr e ↦
          ground
            (arith, e, write_alert-has_alert d spec.step_key (detail_of trigger error attempts) db)
    ]

after_finish-Handled :
    (env : Env) (error : Option Text) (trigger : Trigger) (spec : StepSpec) (d : Date) (b : Db × ℕ)
    → env.has_scheduler ≡ true
    → let db' = after_finish env false error trigger spec d b in
      Handled env spec d trigger (attempts_of b.1 spec.step_key db') db'
unfolding after_finish
after_finish-Handled env error trigger spec d (db, run) h =
    let n = attempts_of run spec.step_key db in
    let same = (retry_or_alert-steps env d spec trigger error n db).0 in
    let db' = retry_or_alert env d spec trigger error n db in
    subst (λ k. Handled env spec d trigger k db')
      (sym (ap (λ steps. attempts_of run spec.step_key (record db { steps = steps })) same))
      (retry_or_alert-Handled env d spec trigger error n db h)

-- Where a scheduler runs, a booked finish of a failed step leaves a retry job if the cron job ran it
-- and its attempts are within the limit, and an alert of the day in every other case.
pub on_step_finish-Handled :
    (env : Env) (log : Option ℕ) (error : Option Text) (trigger : Trigger) (task : TaskName)
    (db : Db) {spec : StepSpec} {d : Date}
    → booked env task ≡ some (spec, d)
    → env.has_scheduler ≡ true
    → let db' = on_step_finish env log false error trigger task db in
      Handled env spec d trigger (attempts_of (booked_run env spec d db) spec.step_key db') db'
unfolding on_step_finish
on_step_finish-Handled env log error trigger task db {spec = spec} {d = d} e h =
    let b = finish_booked env log false error spec d db in
    let handled =
      subst
        (λ run.
          let db' = after_finish env false error trigger spec d b in
          Handled env spec d trigger (attempts_of run spec.step_key db') db')
        (finish_booked-run env log false error spec d db)
        (after_finish-Handled env error trigger spec d b h) in
    subst
      (λ x.
        let db' = finish_if env log false error trigger db x in
        Handled env spec d trigger (attempts_of (booked_run env spec d db) spec.step_key db') db')
      (sym e) handled

write_alert-jobs :
    (d : Date) (key : StepKey) (detail : Detail) (db : Db)
    → (write_alert d key detail db).jobs ≡ db.jobs
unfolding write_alert
write_alert-jobs d key detail db = refl

ensure_run-jobs :
    (env : Env) (d : Date) (p : PipelineType) (db : Db) → (ensure_run env d p db).0.jobs ≡ db.jobs
unfolding ensure_run
ensure_run-jobs env d p db = refl

finish_booked-jobs :
    (env : Env) (log : Option ℕ) (succeeded : Bool) (error : Option Text) (spec : StepSpec)
    (d : Date) (db : Db)
    → (finish_booked env log succeeded error spec d db).0.jobs ≡ db.jobs
unfolding finish_booked finish_step refresh_run
finish_booked-jobs env log succeeded error spec d db = ensure_run-jobs env d spec.pipeline db

retried_finish :
    (env : Env) (error : Option Text) (spec : StepSpec) (d : Date) (b : Db × ℕ)
    → let db' = after_finish env false error scheduler_retry spec d b in
      (db'.jobs ≡ b.0.jobs) × (has_alert d spec.step_key db' ≡ true)
unfolding after_finish retry_or_alert
retried_finish env error spec d (db, run) =
    let detail = detail_of scheduler_retry error (attempts_of run spec.step_key db) in
    (write_alert-jobs d spec.step_key detail db, write_alert-has_alert d spec.step_key detail db)

-- When the run of a step that the retry job started fails and the step is booked, no job is
-- scheduled and the alert is written, whatever limit of retries is set.
pub on_step_finish_retried :
    (env : Env) (log : Option ℕ) (error : Option Text) (task : TaskName) (db : Db) {spec : StepSpec}
    {d : Date}
    → booked env task ≡ some (spec, d)
    → let db' = on_step_finish env log false error scheduler_retry task db in
      (db'.jobs ≡ db.jobs) × (has_alert d spec.step_key db' ≡ true)
unfolding on_step_finish
on_step_finish_retried env log error task db {spec = spec} {d = d} e =
    let (h, k) = retried_finish env error spec d (finish_booked env log false error spec d db) in
    subst
      (λ x.
        let db' = finish_if env log false error scheduler_retry db x in
        (db'.jobs ≡ db.jobs) × (has_alert d spec.step_key db' ≡ true))
      (sym e) (h ∙ finish_booked-jobs env log false error spec d db, k)
