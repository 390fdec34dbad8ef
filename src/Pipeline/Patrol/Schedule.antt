-- ===== src/Pipeline/Patrol/Schedule.antt =====
-- The schedule of the patrol and the line that it owes each step (`patrol_missing`).
use stock_platform.Prelude.{
  ℕ, ◌+◌, ◌-◌, ◌≡◌, ◌==◌, ◌&&◌, refl, ap, arith, Bool, leb, if◌then◌else◌, Option, none, some, List,
  [], ◌∷◌, ◌++◌, keep, exists, Bool-cases, inl, inr,
}
use Prim.Native.Nat.{◌%◌}
use stock_platform.Calendar.{Date, weekday}
use stock_platform.Pipeline.Topology.{
  StepKey, delist_sync, factor_health_check, industry_map_sync, PipelineType, daily, weekly,
  Weekday, mon_fri, sat, sun, same_key,
}
use stock_platform.Pipeline.Tables.{Db, Run, Step, StepStatus, is_done}
use stock_platform.Pipeline.Hooks.{is_run}
use stock_platform.Pipeline.Patrol.{Missing, run_has, status_at}

-- The days of the schedule.
abbrev pub runs_on : StepKey → Weekday
runs_on key = elim key [
  | delist_sync ↦ sat
  | factor_health_check ↦ sat
  | industry_map_sync ↦ sun
  | _ ↦ mon_fri
]

abbrev pub booked_under : Weekday → PipelineType
booked_under mon_fri = daily
booked_under sat = weekly
booked_under sun = weekly

-- The patrolled day, the last Saturday up to it, or the Sunday after that.
abbrev pub due_date : Date → Weekday → Date
due_date d mon_fri = d
due_date d sat = d - (weekday d + 2) % 7
due_date d sun = d - (weekday d + 2) % 7 + 1

-- The rows of a step in the runs of a date and pipeline, and the status of the last one.
abbrev pub booked_rows : Db → Date → PipelineType → StepKey → List Step
booked_rows db date p key =
    keep
      (λ (st : Step).
        exists (λ (r : Run). is_run date p r && r.id == st.run_id) db.runs
        && same_key st.step_key key)
      db.steps

abbrev pub last_status : List Step → Option StepStatus
last_status [] = none
last_status (st ∷ steps) = elim steps [ [] ↦ some st.status | _ ∷ _ ↦ last_status steps ]

abbrev pub unless_done : Option StepStatus → Missing → List Missing
unless_done none m = m ∷ []
unless_done (some status) m = if is_done status then [] else m ∷ []

abbrev pub line : Db → Date → PipelineType → StepKey → List Missing
line db date p key =
    let status = last_status (booked_rows db date p key) in
    unless_done status (record { date = date; step = key; status = status })

-- What the report says of a step: nothing where it is not due since the first booked run, or done.
abbrev pub reported : Db → Date → Date → StepKey → List Missing
reported db epoch d key =
    let date = due_date d (runs_on key) in
    if leb epoch date && leb date d then line db date (booked_under (runs_on key)) key else []

abbrev pub is_about : StepKey → Missing → Bool
is_about key m = same_key m.step key

pub append_nil : {A : Type 0} (xs : List A) → xs ++ [] ≡ xs
append_nil [] = refl
append_nil (x ∷ xs) = ap (λ l. x ∷ l) (append_nil xs)

pub keep-append :
    {A : Type 0} (p : A → Bool) (xs ys : List A) → keep p (xs ++ ys) ≡ keep p xs ++ keep p ys
keep-append p [] ys = refl
keep-append p (x ∷ xs) ys = ground (arith, keep-append p xs ys)

run_has-exists :
    (date : Date) (p : PipelineType) (runs : List Run) (id : ℕ)
    → run_has date p runs id ≡ exists (λ (r : Run). is_run date p r && r.id == id) runs
run_has-exists date p [] id = refl
run_has-exists date p (r ∷ runs) id = ground (arith, run_has-exists date p runs id)

last_status_cons :
    (st : Step) (steps : List Step) → (s : StepStatus) × (last_status (st ∷ steps) ≡ some s)
last_status_cons st [] = (st.status, refl)
last_status_cons st (x ∷ steps) = last_status_cons x steps

last_status-cons :
    (st : Step) (steps : List Step)
    → last_status (st ∷ steps) ≡ (elim (last_status steps) as (λ _. Option StepStatus) [
      | none ↦ some st.status
      | some s ↦ some s
    ])
last_status-cons st [] = refl
last_status-cons st (x ∷ steps) = let (s, e) = last_status_cons x steps in ground (arith, e)

pub some-inj : {A : Type 0} {a b : A} → some a ≡ some b → a ≡ b
some-inj e = cc

-- The dictionary keeps the last of the rows with one key.
pub status_at-last :
    (date : Date) (p : PipelineType) (key : StepKey) (runs : List Run) (steps : List Step)
    → status_at key (run_has date p runs) steps
      ≡ last_status (
          keep
            (λ (st : Step).
              exists (λ (r : Run). is_run date p r && r.id == st.run_id) runs
              && same_key st.step_key key)
            steps)
status_at-last date p key runs [] = refl
status_at-last date p key runs (st ∷ steps) =
    let own = λ (t : Step).
      exists (λ (r : Run). is_run date p r && r.id == t.run_id) runs && same_key t.step_key key in
    let has = run_has-exists date p runs st.run_id in
    elim (Bool-cases (own st)) [
      | inl here ↦ ground (
        arith,
        here,
        has,
        status_at-last date p key runs steps,
        last_status-cons st (keep own steps),
      )
      | inr other ↦ ground (arith, other, has, status_at-last date p key runs steps)
    ]
