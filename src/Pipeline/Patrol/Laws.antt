-- ===== src/Pipeline/Patrol/Laws.antt =====
-- What the patrol reports, and what it leaves in the tables.
use stock_platform.Prelude.{
  ◌≡◌, ◌≤◌, ◌+◌, ◌<◌, refl, arith, Option, some, List, [], ◌∷◌, ◌++◌, if◌then◌else◌,
}
use stock_platform.Calendar.{Date, weekday}
use stock_platform.Pipeline.Topology.{StepKey, PipelineType, StepSpec}
use stock_platform.Pipeline.Tables.{Db, Run, Step, StepStatus}
use stock_platform.Pipeline.Finish.{write_alert}
use stock_platform.Pipeline.Patrol.{
  saturday_before, Expected, Missing, epoch_of, expected_runs, run_has, status_at, step_status,
  done_status, refresh_alert, missing_steps, missing_runs, patrol_missing,
}

-- The walk back ends on the last Saturday at or before a date from the second week on.
pub saturday_before_lem :
    (d : Date)
    → 7 ≤ d
    → (weekday (saturday_before d) ≡ 5) × (saturday_before d ≤ d) × (d < saturday_before d + 7)
unfolding saturday_before
saturday_before_lem d h = (ground arith, ground arith, ground arith)

-- The steps of a run that are not done, as a function of the two tables.
abbrev pub open_steps : Date → PipelineType → List StepSpec → List Run → List Step → List Missing
open_steps d p [] runs steps = []
open_steps d p (spec ∷ specs) runs steps =
    let st = status_at spec.step_key (run_has d p runs) steps in
    let rest = open_steps d p specs runs steps in
    if done_status st then rest else record { date = d; step = spec.step_key; status = st } ∷ rest

abbrev pub open_runs : List Expected → List Run → List Step → List Missing
open_runs [] runs steps = []
open_runs (e ∷ es) runs steps =
    open_steps e.run_date e.pipeline e.specs runs steps ++ open_runs es runs steps

abbrev pub SameBooks : Db → Db → Type 0
SameBooks db db' = (db'.runs ≡ db.runs) × (db'.steps ≡ db.steps)

refresh_alert-SameBooks :
    (d : Date) (key : StepKey) (st : Option StepStatus) (db : Db)
    → SameBooks db (refresh_alert d key st db)
unfolding write_alert
refresh_alert-SameBooks d key st db = ground arith

missing_steps-open_steps :
    (d : Date) (p : PipelineType) (specs : List StepSpec) (db : Db)
    → ((missing_steps d p specs db).0 ≡ open_steps d p specs db.runs db.steps)
      × SameBooks db (missing_steps d p specs db).1
unfolding missing_steps
missing_steps-open_steps d p [] db = (refl, (refl, refl))
missing_steps-open_steps d p (spec ∷ specs) db =
    let st = step_status db d p spec.step_key in
    ground (
      arith,
      missing_steps-open_steps d p specs db,
      missing_steps-open_steps d p specs (refresh_alert d spec.step_key st db),
      refresh_alert-SameBooks d spec.step_key st db,
    )

missing_runs-open_runs :
    (es : List Expected) (db : Db)
    → ((missing_runs es db).0 ≡ open_runs es db.runs db.steps) × SameBooks db (missing_runs es db).1
unfolding missing_runs
missing_runs-open_runs [] db = (refl, (refl, refl))
missing_runs-open_runs (e ∷ es) db =
    let here = missing_steps e.run_date e.pipeline e.specs db in
    ground (
      arith,
      missing_steps-open_steps e.run_date e.pipeline e.specs db,
      missing_runs-open_runs es here.1,
    )

-- Once a run was booked, the patrol reports exactly the steps that are not done of the runs that it
-- expects, each by its status in the tables as they were, and leaves the runs and steps as they are.
pub patrol_missing-open_runs :
    (db : Db) (d : Date) {epoch : Date}
    → epoch_of db.runs ≡ some epoch
    → ((patrol_missing db d).0 ≡ some (open_runs (expected_runs epoch d) db.runs db.steps))
      × SameBooks db (patrol_missing db d).1
unfolding patrol_missing
patrol_missing-open_runs db d {epoch = epoch} e =
    ground (arith, missing_runs-open_runs (expected_runs epoch d) db)
