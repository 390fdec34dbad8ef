-- ===== src/Pipeline/Patrol/Lines.antt =====
-- The missing steps of the expected runs, for one step at a time (`patrol_missing`).
use stock_platform.Prelude.{
  ◌-◌, ◌≡◌, refl, ap, ◌∙◌, sym, arith, Bool, true, false, if◌then◌else◌, Option, none, some, List,
  [], ◌∷◌, ◌++◌, keep, Bool-cases, inl, inr, ==_iff, get_elem?,
}
use stock_platform.Calendar.{Date}
use stock_platform.Pipeline.Topology.{
  StepKey, pool_sync, index_sync, sentiment_sync, north_flow_sync, money_flow_detail_sync,
  sector_sync, daily_k_sync, dragon_tiger_sync, market_agent_sync, review_agent_sync,
  trade_status_sync, finance_sync, paper_tick, delist_sync, factor_health_check, industry_map_sync,
  PipelineType, daily, mon_fri, sat, sun, StepSpec, step_seq, same_key, key_of, pipeline_topology,
  pipeline_steps, step_seq-pipeline_topology,
}
use stock_platform.Pipeline.Tables.{Db, StepStatus}
use stock_platform.Pipeline.Patrol.{
  Missing, Expected, steps_on, expect_if, run_has, status_at, done_status,
}
use stock_platform.Pipeline.Patrol.Laws.{open_steps, open_runs}
use stock_platform.Pipeline.Patrol.Schedule.{
  runs_on, line, is_about, append_nil, keep-append, some-inj, status_at-last, unless_done,
}

-- The lines of a step among those of a list of specifications.
abbrev pub pick : StepKey → List StepSpec → List Missing → List Missing
pick key [] x = []
pick key (spec ∷ specs) x = (if same_key spec.step_key key then x else []) ++ pick key specs x

pub pick-daily :
    (key : StepKey) (x : List Missing)
    → pick key (pipeline_steps daily) x
      ≡ (elim (runs_on key) as (λ _. List Missing) [ mon_fri ↦ x | _ ↦ [] ])
pick-daily pool_sync x = append_nil x
pick-daily index_sync x = append_nil x
pick-daily sentiment_sync x = append_nil x
pick-daily north_flow_sync x = append_nil x
pick-daily money_flow_detail_sync x = append_nil x
pick-daily sector_sync x = append_nil x
pick-daily daily_k_sync x = append_nil x
pick-daily dragon_tiger_sync x = append_nil x
pick-daily market_agent_sync x = append_nil x
pick-daily review_agent_sync x = append_nil x
pick-daily trade_status_sync x = append_nil x
pick-daily finance_sync x = append_nil x
pick-daily paper_tick x = append_nil x
pick-daily delist_sync x = refl
pick-daily factor_health_check x = refl
pick-daily industry_map_sync x = refl

pub pick-sat :
    (key : StepKey) (x : List Missing)
    → pick key (steps_on sat) x ≡ (elim (runs_on key) as (λ _. List Missing) [ sat ↦ x | _ ↦ [] ])
pick-sat pool_sync x = refl
pick-sat index_sync x = refl
pick-sat sentiment_sync x = refl
pick-sat north_flow_sync x = refl
pick-sat money_flow_detail_sync x = refl
pick-sat sector_sync x = refl
pick-sat daily_k_sync x = refl
pick-sat dragon_tiger_sync x = refl
pick-sat market_agent_sync x = refl
pick-sat review_agent_sync x = refl
pick-sat trade_status_sync x = refl
pick-sat finance_sync x = refl
pick-sat paper_tick x = refl
pick-sat delist_sync x = append_nil x
pick-sat factor_health_check x = append_nil x
pick-sat industry_map_sync x = refl

pub pick-sun :
    (key : StepKey) (x : List Missing)
    → pick key (steps_on sun) x ≡ (elim (runs_on key) as (λ _. List Missing) [ sun ↦ x | _ ↦ [] ])
pick-sun pool_sync x = refl
pick-sun index_sync x = refl
pick-sun sentiment_sync x = refl
pick-sun north_flow_sync x = refl
pick-sun money_flow_detail_sync x = refl
pick-sun sector_sync x = refl
pick-sun daily_k_sync x = refl
pick-sun dragon_tiger_sync x = refl
pick-sun market_agent_sync x = refl
pick-sun review_agent_sync x = refl
pick-sun trade_status_sync x = refl
pick-sun finance_sync x = refl
pick-sun paper_tick x = refl
pick-sun delist_sync x = refl
pick-sun factor_health_check x = refl
pick-sun industry_map_sync x = append_nil x

-- The keys are at different positions.
same_key-eq : (a b : StepKey) → same_key a b ≡ true → a ≡ b
same_key-eq a b h =
    let e = (==_iff (step_seq a) (step_seq b)).0 h in
    some-inj (
      sym (step_seq-pipeline_topology a)
      ∙ (ap (λ n. key_of (get_elem? pipeline_topology (n - 1))) e ∙ step_seq-pipeline_topology b))

keep-line :
    (key k : StepKey) (date : Date) (status : Option StepStatus) (rest : List Missing)
    → keep (is_about key) (
        if done_status status
        then rest
        else record { date = date; step = k; status = status } ∷ rest)
      ≡ (if same_key k key
          then unless_done status (record { date = date; step = k; status = status })
          else [])
        ++ keep (is_about key) rest
keep-line key k date none rest = ground arith
keep-line key k date (some status) rest = ground arith

same_line :
    (db : Db) (date : Date) (p : PipelineType) (k key : StepKey)
    → (if same_key k key then line db date p k else [])
      ≡ (if same_key k key then line db date p key else [])
same_line db date p k key = elim (Bool-cases (same_key k key)) [
  | inl same ↦ ap (λ j. if same_key k key then line db date p j else []) (same_key-eq k key same)
  | inr other ↦ rw other
]

pub open_steps-pick :
    (db : Db) (date : Date) (p : PipelineType) (specs : List StepSpec) (key : StepKey)
    → keep (is_about key) (open_steps date p specs db.runs db.steps)
      ≡ pick key specs (line db date p key)
open_steps-pick db date p [] key = refl
open_steps-pick db date p (spec ∷ specs) key =
    let status = status_at spec.step_key (run_has date p db.runs) db.steps in
    let now = λ (s : Option StepStatus).
      if same_key spec.step_key key
      then unless_done s (record { date = date; step = spec.step_key; status = s })
      else [] in
    keep-line key spec.step_key date status (open_steps date p specs db.runs db.steps)
    ∙ (ap (λ s. now s ++ keep (is_about key) (open_steps date p specs db.runs db.steps))
          (status_at-last date p spec.step_key db.runs db.steps)
        ∙ (ap (λ l. l ++ keep (is_about key) (open_steps date p specs db.runs db.steps))
              (same_line db date p spec.step_key key)
            ∙ ap (λ l. (if same_key spec.step_key key then line db date p key else []) ++ l)
                (open_steps-pick db date p specs key)))

-- A run that is expected or not, as its lines for a step.
pub expect_if-pick :
    (db : Db) (b : Bool) (date : Date) (p : PipelineType) (specs : List StepSpec) (key : StepKey)
    (es : List Expected) {x : List Missing}
    → pick key specs (line db date p key) ≡ x
    → keep (is_about key) (open_runs (expect_if b date p specs ++ es) db.runs db.steps)
      ≡ (if b then x else []) ++ keep (is_about key) (open_runs es db.runs db.steps)
expect_if-pick db true date p specs key es e =
    keep-append (is_about key) (open_steps date p specs db.runs db.steps) _
    ∙ ap (λ l. l ++ keep (is_about key) (open_runs es db.runs db.steps))
        (open_steps-pick db date p specs key ∙ e)
expect_if-pick db false date p specs key es e = refl
