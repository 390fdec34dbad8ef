-- ===== src/Pipeline/Patrol/Report.antt =====
-- The report of the patrol (`patrol_missing`), step by step: which steps it expects on which day, and
-- which of these it reports.
use stock_platform.Prelude.{
  ◌+◌, ◌-◌, ◌≡◌, ◌≤◌, ◌<◌, subst, ◌&&◌, refl, ap, ◌∙◌, sym, arith, Bool, true, false, leb,
  if◌then◌else◌, some, List, [], ◌++◌, keep,
}
use Prim.Native.Nat.{◌%◌}
use stock_platform.Calendar.{Date, weekday}
use stock_platform.Pipeline.Topology.{
  StepKey, daily, weekly, Weekday, mon_fri, sat, sun, pipeline_steps,
}
use stock_platform.Pipeline.Tables.{Db}
use stock_platform.Pipeline.Patrol.{
  Missing, Expected, epoch_of, saturday_before, steps_on, expect_if, expected_runs, patrol_missing,
}
use stock_platform.Pipeline.Patrol.Laws.{
  open_runs, SameBooks, patrol_missing-open_runs, saturday_before_lem,
}
use stock_platform.Pipeline.Patrol.Schedule.{
  runs_on, booked_under, due_date, line, reported, is_about, append_nil,
}
use stock_platform.Pipeline.Patrol.Lines.{pick-daily, pick-sat, pick-sun, expect_if-pick}

saturday_unique :
    (s d : Date) → weekday s ≡ 5 → s ≤ d → d < s + 7 → 7 ≤ d → s ≡ d - (weekday d + 2) % 7
saturday_unique s d e le lt h = omega arith

-- The walk back to the Saturday, in closed form.
saturday_before_eq : (d : Date) → 7 ≤ d → saturday_before d ≡ d - (weekday d + 2) % 7
saturday_before_eq d h =
    let (sat_day, le, lt) = saturday_before_lem d h in
    saturday_unique (saturday_before d) d sat_day le lt h

if_nil : (b : Bool) → if◌then◌else◌ {A = List Missing} b [] [] ≡ []
if_nil true = refl
if_nil false = refl

first_only :
    (a b c : Bool) (x : List Missing)
    → (if a then x else []) ++ ((if b then [] else []) ++ (if c then [] else []))
      ≡ (if a then x else [])
first_only a b c x = rw (if_nil b, if_nil c) (append_nil (if a then x else []))

second_only :
    (a b c : Bool) (x : List Missing)
    → (if a then [] else []) ++ ((if b then x else []) ++ (if c then [] else []))
      ≡ (if b then x else [])
second_only a b c x = rw (if_nil a, if_nil c) (append_nil (if b then x else []))

third_only :
    (a b c : Bool) (x : List Missing)
    → (if a then [] else []) ++ ((if b then [] else []) ++ (if c then x else []))
      ≡ (if c then x else [])
third_only a b c x = rw (if_nil a, if_nil b) refl

day_line_at :
    (db : Db) (epoch d : Date) (key : StepKey) (w : Weekday)
    → let s = d - (weekday d + 2) % 7 in
      (if leb epoch d
          then (elim w as (λ _. List Missing) [ mon_fri ↦ line db d daily key | _ ↦ [] ])
          else [])
        ++ ((if leb epoch s && leb s d
              then (elim w as (λ _. List Missing) [ sat ↦ line db s weekly key | _ ↦ [] ])
              else [])
            ++ (if leb epoch (s + 1) && leb (s + 1) d
                then (elim w as (λ _. List Missing) [ sun ↦ line db (s + 1) weekly key | _ ↦ [] ])
                else []))
      ≡ (if leb epoch (due_date d w) && leb (due_date d w) d
          then line db (due_date d w) (booked_under w) key
          else [])
day_line_at db epoch d key mon_fri =
    let own : leb epoch d ≡ (leb epoch d && leb d d) = ground arith in
    let saturday = d - (weekday d + 2) % 7 in
    first_only (leb epoch d) (leb epoch saturday && leb saturday d)
      (leb epoch (saturday + 1) && leb (saturday + 1) d) (line db d daily key)
    ∙ ap (λ b. if b then line db d daily key else []) own
day_line_at db epoch d key sat =
    let saturday = d - (weekday d + 2) % 7 in
    second_only (leb epoch d) (leb epoch saturday && leb saturday d)
      (leb epoch (saturday + 1) && leb (saturday + 1) d) (line db saturday weekly key)
day_line_at db epoch d key sun =
    let saturday = d - (weekday d + 2) % 7 in
    third_only (leb epoch d) (leb epoch saturday && leb saturday d)
      (leb epoch (saturday + 1) && leb (saturday + 1) d) (line db (saturday + 1) weekly key)

-- The lines of the three runs for a step that one of them has.
day_line :
    (db : Db) (epoch d saturday : Date) (key : StepKey) (w : Weekday)
    → saturday ≡ d - (weekday d + 2) % 7
    → (if leb epoch d
          then (elim w as (λ _. List Missing) [ mon_fri ↦ line db d daily key | _ ↦ [] ])
          else [])
        ++ ((if leb epoch saturday && leb saturday d
              then (elim w as (λ _. List Missing) [ sat ↦ line db saturday weekly key | _ ↦ [] ])
              else [])
            ++ (if leb epoch (saturday + 1) && leb (saturday + 1) d
                then (elim w as (λ _. List Missing) [
                  | sun ↦ line db (saturday + 1) weekly key
                  | _ ↦ []
                ])
                else []))
      ≡ (if leb epoch (due_date d w) && leb (due_date d w) d
          then line db (due_date d w) (booked_under w) key
          else [])
day_line db epoch d saturday key w e =
    subst
      (λ s.
        (if leb epoch d
            then (elim w as (λ _. List Missing) [ mon_fri ↦ line db d daily key | _ ↦ [] ])
            else [])
          ++ ((if leb epoch s && leb s d
                then (elim w as (λ _. List Missing) [ sat ↦ line db s weekly key | _ ↦ [] ])
                else [])
              ++ (if leb epoch (s + 1) && leb (s + 1) d
                  then (elim w as (λ _. List Missing) [ sun ↦ line db (s + 1) weekly key | _ ↦ [] ])
                  else []))
        ≡ (if leb epoch (due_date d w) && leb (due_date d w) d
            then line db (due_date d w) (booked_under w) key
            else []))
      (sym e) (day_line_at db epoch d key w)

expected-lines :
    (db : Db) (epoch d : Date) (key : StepKey)
    → keep (is_about key) (open_runs (expected_runs epoch d) db.runs db.steps) ≡ (
        let saturday = saturday_before d in
        let w = runs_on key in
        (if leb epoch d
          then (elim w as (λ _. List Missing) [ mon_fri ↦ line db d daily key | _ ↦ [] ])
          else [])
        ++ ((if leb epoch saturday && leb saturday d
              then (elim w as (λ _. List Missing) [ sat ↦ line db saturday weekly key | _ ↦ [] ])
              else [])
            ++ (if leb epoch (saturday + 1) && leb (saturday + 1) d
                then (elim w as (λ _. List Missing) [
                  | sun ↦ line db (saturday + 1) weekly key
                  | _ ↦ []
                ])
                else [])))
unfolding expected_runs
expected-lines db epoch d key =
    let saturday = saturday_before d in
    let on_sat = leb epoch saturday && leb saturday d in
    let on_sun = leb epoch (saturday + 1) && leb (saturday + 1) d in
    let last = expect_if on_sun (saturday + 1) weekly (steps_on sun) in
    let weekend = expect_if on_sat saturday weekly (steps_on sat) ++ last in
    let kept = λ (es : List Expected). keep (is_about key) (open_runs es db.runs db.steps) in
    let sunday =
      ap kept (sym (append_nil last))
      ∙ (expect_if-pick db on_sun (saturday + 1) weekly (steps_on sun) key [] (pick-sun key _)
          ∙ append_nil _) in
    let on_day : List Missing =
      if leb epoch d
      then (elim (runs_on key) as (λ _. List Missing) [ mon_fri ↦ line db d daily key | _ ↦ [] ])
      else [] in
    let on_saturday : List Missing =
      if on_sat
      then (elim (runs_on key) as (λ _. List Missing) [
        | sat ↦ line db saturday weekly key
        | _ ↦ []
      ])
      else [] in
    expect_if-pick db (leb epoch d) d daily (pipeline_steps daily) key weekend (pick-daily key _)
    ∙ ap (λ l. on_day ++ l)
        (expect_if-pick db on_sat saturday weekly (steps_on sat) key last (pick-sat key _)
          ∙ ap (λ l. on_saturday ++ l) sunday)

-- Once a run was booked, and from the second week of the calendar on: for each step of the topology the
-- patrol reports one line, or none. The step is due on the patrolled day, or for the weekly ones on
-- the last Saturday up to it or the Sunday after that, if this lies between the first booked run and
-- the patrolled day; a due step is reported, with its date and status, unless the last row that is
-- booked for it in the runs of that date and pipeline is done. The runs and steps stay as they are.
pub patrol_missing-reported :
    (db : Db) (d : Date) {epoch : Date}
    → epoch_of db.runs ≡ some epoch
    → 7 ≤ d
    → (missing : List Missing) × ((patrol_missing db d).0 ≡ some missing)
      × ((key : StepKey) → keep (is_about key) missing ≡ reported db epoch d key)
      × SameBooks db (patrol_missing db d).1
patrol_missing-reported db d {epoch = epoch} e h =
    let (report, books) = patrol_missing-open_runs db d {epoch = epoch} e in
    (
      open_runs (expected_runs epoch d) db.runs db.steps,
      report,
      λ key.
          expected-lines db epoch d key
          ∙ day_line db epoch d (saturday_before d) key (runs_on key) (saturday_before_eq d h),
      books,
    )
