-- ===== src/Pipeline/Finish/Weekend.antt =====
-- The weekly pipeline on a Saturday: its last step in topology order runs on Sunday, under another
-- run date.
use stock_platform.Prelude.{
  ℕ, ◌≡◌, refl, Bool, true, false, if◌then◌else◌, Option, some, List, [], ◌∷◌, ◌∙◌, ap, sym, first,
  arith,
}
use stock_platform.Calendar.{Date}
use stock_platform.Pipeline.Topology.{
  StepSpec, TaskName, weekly, industry_map_sync, last_key, same_key,
}
use stock_platform.Pipeline.Tables.{
  Db, Run, RunStatus, running, success, partial, failed, Step, Text, Trigger,
}
use stock_platform.Pipeline.Status.{State, run_is_final, final_at, recompute_run_status}
use stock_platform.Pipeline.Hooks.{Env, booked, is_run}
use stock_platform.Pipeline.Finish.{on_step_finish, status_of, steps_of, states_of}
use stock_platform.Pipeline.Finish.Outcome.{booked_run, on_step_finish-RunAgrees}

-- No row of the Sunday step.
abbrev pub no_sunday_step : List Step → Bool
no_sunday_step [] = true
no_sunday_step (st ∷ steps) =
    let rest = no_sunday_step steps in
    if same_key st.step_key industry_map_sync then false else rest

last_key_weekly : last_key weekly ≡ some industry_map_sync
unfolding last_key
last_key_weekly = refl

final_at-no_sunday :
    (steps : List Step) → no_sunday_step steps ≡ true → final_at industry_map_sync steps ≡ false
final_at-no_sunday [] h = refl
final_at-no_sunday (st ∷ steps) h = ground (arith, final_at-no_sunday steps)

run_is_final-no_sunday :
    (steps : List Step) → no_sunday_step steps ≡ true → run_is_final weekly steps ≡ false
unfolding run_is_final last_key
run_is_final-no_sunday steps h = final_at-no_sunday steps h

abbrev pub is_open : RunStatus → Bool
is_open s = elim s [ running ↦ true | success ↦ false | partial ↦ false | failed ↦ true ]

recompute_run_status-not_final :
    (states : List State) → is_open (recompute_run_status states false) ≡ true
unfolding recompute_run_status
recompute_run_status-not_final states = ground arith

status_of-no_sunday :
    (steps : List Step) → no_sunday_step steps ≡ true → is_open (status_of weekly steps) ≡ true
unfolding status_of
status_of-no_sunday steps h =
    ap (λ final. is_open (recompute_run_status (states_of steps) final))
      (run_is_final-no_sunday steps h)
    ∙ recompute_run_status-not_final (states_of steps)

-- If after a booked finish of a weekly step its run has no row of the Sunday step, then the run is
-- not closed: its status is running or failed.
pub on_step_finish_weekend :
    (env : Env) (log : Option ℕ) (succeeded : Bool) (error : Option Text) (trigger : Trigger)
    (task : TaskName) (db : Db) {spec : StepSpec} {d : Date}
    → booked env task ≡ some (spec, d)
    → spec.pipeline ≡ weekly
    → let db' = on_step_finish env log succeeded error trigger task db in
      no_sunday_step (steps_of (booked_run env spec d db) db') ≡ true
      → (r : Run) × (first (is_run d weekly) db'.runs ≡ some r) × (is_open r.status ≡ true)
on_step_finish_weekend env log succeeded error trigger task db {spec = spec} {d = d} e w h =
    let db' = on_step_finish env log succeeded error trigger task db in
    let steps = steps_of (booked_run env spec d db) db' in
    let (r, found, agrees) = on_step_finish-RunAgrees env log succeeded error trigger task db e in
    (
      r,
      ap (λ p. first (is_run d p) db'.runs) (sym w) ∙ found,
      ap is_open (agrees ∙ ap (λ p. status_of p steps) w) ∙ status_of-no_sunday steps h,
    )
