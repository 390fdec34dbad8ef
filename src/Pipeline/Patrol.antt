-- ===== src/Pipeline/Patrol.antt =====
-- The 08:00 patrol: `patrol_missing` of backend/app/services/pipeline_service.py. The refresh of
-- the alerts of failed steps is its effect on the tables.
pub mod Laws
pub mod Schedule
pub mod Lines
pub mod Report
use stock_platform.Prelude.{
  ℕ, zero, suc, ◌+◌, ◌-◌, ◌==◌, ◌&&◌, Bool, true, false, leb, ltb, if◌then◌else◌, Option, none,
  some, List, [], ◌∷◌, ◌++◌, keep, length,
}
use stock_platform.Calendar.{Date, weekday}
use stock_platform.Pipeline.Topology.{
  StepKey, PipelineType, daily, weekly, Weekday, mon_fri, sat, sun, StepSpec, pipeline_steps,
  same_key,
}
use stock_platform.Pipeline.Tables.{Db, Run, Step, StepStatus, failed, is_done, patrol_refresh}
use stock_platform.Pipeline.Hooks.{is_run}
use stock_platform.Pipeline.Finish.{write_alert}

-- A run that is expected, with its steps.
pub record Expected : Type 0 where
  pub run_date : Date
  pub pipeline : PipelineType
  pub specs : List StepSpec

pub record Missing : Type 0 where
  pub date : Date
  pub step : StepKey
  pub status : Option StepStatus

-- `func.min(SaPipelineRun.run_date)`
abbrev pub epoch_of : List Run → Option Date
epoch_of [] = none
epoch_of (r ∷ runs) = elim (epoch_of runs) [
  | none ↦ some r.run_date
  | some e ↦ some (if ltb e r.run_date then e else r.run_date)
]

-- `while sat.weekday() != 5: sat -= 1`, on fuel.
abbrev pub back_to_saturday : ℕ → Date → Date
back_to_saturday zero d = d
back_to_saturday (suc fuel) d =
    let rest = back_to_saturday fuel (d - 1) in if weekday d == 5 then d else rest

-- Six rounds are enough, since one of seven days in a row is a Saturday.
unfoldable pub saturday_before : Date → Date
saturday_before d = back_to_saturday 6 d

abbrev same_weekday : Weekday → Weekday → Bool
same_weekday mon_fri w = elim w [ mon_fri ↦ true | _ ↦ false ]
same_weekday sat w = elim w [ sat ↦ true | _ ↦ false ]
same_weekday sun w = elim w [ sun ↦ true | _ ↦ false ]

abbrev steps_on : Weekday → List StepSpec
steps_on w = keep (λ (s : StepSpec). same_weekday s.weekday w) (pipeline_steps weekly)

abbrev expect_if : Bool → Date → PipelineType → List StepSpec → List Expected
expect_if b d p specs = if b then record { run_date = d; pipeline = p; specs = specs } ∷ [] else []

unfoldable pub expected_runs : Date → Date → List Expected
expected_runs epoch d =
    let saturday = saturday_before d in
    let sunday = saturday + 1 in
    expect_if (leb epoch d) d daily (pipeline_steps daily)
    ++ (expect_if (leb epoch saturday && leb saturday d) saturday weekly (steps_on sat)
        ++ expect_if (leb epoch sunday && leb sunday d) sunday weekly (steps_on sun))

-- The join of the steps with the runs of a date and pipeline.
abbrev pub run_has : Date → PipelineType → List Run → ℕ → Bool
run_has d p [] id = false
run_has d p (r ∷ runs) id =
    let rest = run_has d p runs id in if is_run d p r && r.id == id then true else rest

-- `by_key.get(spec.step_key)`: of two rows with one key the later one counts.
abbrev pub status_at : StepKey → (ℕ → Bool) → List Step → Option StepStatus
status_at key booked [] = none
status_at key booked (st ∷ steps) =
    let own = if booked st.run_id && same_key st.step_key key then some st.status else none in
    elim (status_at key booked steps) [ none ↦ own | some s ↦ some s ]

abbrev pub step_status : Db → Date → PipelineType → StepKey → Option StepStatus
step_status db d p key = status_at key (run_has d p db.runs) db.steps

abbrev pub done_status : Option StepStatus → Bool
done_status none = false
done_status (some s) = is_done s

abbrev pub refresh_alert : Date → StepKey → Option StepStatus → Db → Db
refresh_alert d key none db = db
refresh_alert d key (some s) db = elim s [ failed ↦ write_alert d key patrol_refresh db | _ ↦ db ]

-- The steps of one expected run that are not done, from the first to the last.
unfoldable pub missing_steps : Date → PipelineType → List StepSpec → Db → List Missing × Db
missing_steps d p [] db = ([], db)
missing_steps d p (spec ∷ specs) db =
    let st = step_status db d p spec.step_key in
    let here : Missing = record { date = d; step = spec.step_key; status = st } in
    let (later, db1) = missing_steps d p specs db in
    let (found, db2) = missing_steps d p specs (refresh_alert d spec.step_key st db) in
    if done_status st then (later, db1) else (here ∷ found, db2)

unfoldable pub missing_runs : List Expected → Db → List Missing × Db
missing_runs [] db = ([], db)
missing_runs (e ∷ es) db =
    let (here, db1) = missing_steps e.run_date e.pipeline e.specs db in
    let (later, db2) = missing_runs es db1 in (here ++ later, db2)

-- The missing steps and the tables after it; `none` before any run was booked.
unfoldable pub patrol_missing : Db → Date → Option (List Missing) × Db
patrol_missing db d = elim (epoch_of db.runs) [
  | none ↦ (none, db)
  | some epoch ↦ let (missing, db1) = missing_runs (expected_runs epoch d) db in (some missing, db1)
]
