-- ===== src/Pipeline/Topology.antt =====
-- `PIPELINE_TOPOLOGY`, the aliases and `step_spec` of backend/app/services/pipeline_service.py.
use stock_platform.Prelude.{
  ℕ, ◌≡◌, refl, ◌==◌, Bool, true, false, Option, none, some, List, [], ◌∷◌, first, get_elem?, keep,
  ◌-◌, if◌then◌else◌,
}
use stock_platform.Prelude.Dict.{get_or}

-- The step keys, in topology order.
pub data StepKey : Type 0 where
  pool_sync index_sync sentiment_sync north_flow_sync money_flow_detail_sync sector_sync : StepKey
  daily_k_sync dragon_tiger_sync market_agent_sync review_agent_sync trade_status_sync : StepKey
  finance_sync paper_tick delist_sync factor_health_check industry_map_sync : StepKey

-- A task name: a step's key, one of the two aliases, or the name of a task outside the topology.
pub data TaskName : Type 0 where
  step : StepKey → TaskName
  daily_k_sync_retry finance_sync_nightly : TaskName
  outside : ℕ → TaskName

pub data PipelineType : Type 0 where
  daily weekly : PipelineType

pub data Weekday : Type 0 where
  mon_fri sat sun : Weekday

pub record StepSpec : Type 0 where
  pub step_key : StepKey
  pub pipeline : PipelineType
  pub hour : ℕ
  pub minute : ℕ
  pub weekday : Weekday
  pub critical : Bool
  pub retry_max : Option ℕ

abbrev daily_step : StepKey → ℕ → ℕ → Bool → StepSpec
daily_step key hour minute critical = record {
  step_key = key;
  pipeline = daily;
  hour = hour;
  minute = minute;
  weekday = mon_fri;
  critical = critical;
  retry_max = none;
}

abbrev weekly_step : StepKey → ℕ → ℕ → Weekday → StepSpec
weekly_step key hour minute day = record {
  step_key = key;
  pipeline = weekly;
  hour = hour;
  minute = minute;
  weekday = day;
  critical = false;
  retry_max = none;
}

abbrev pub pipeline_topology : List StepSpec
pipeline_topology =
    daily_step pool_sync 16 25 false
    ∷ daily_step index_sync 16 35 false
    ∷ daily_step sentiment_sync 16 45 false
    ∷ daily_step north_flow_sync 17 0 false
    ∷ daily_step money_flow_detail_sync 17 5 false
    ∷ daily_step sector_sync 17 10 false
    ∷ daily_step daily_k_sync 17 30 true
    ∷ daily_step dragon_tiger_sync 18 0 false
    ∷ daily_step market_agent_sync 18 10 false
    ∷ daily_step review_agent_sync 18 20 false
    ∷ daily_step trade_status_sync 19 0 true
    ∷ daily_step finance_sync 19 30 false
    ∷ daily_step paper_tick 20 0 true
    ∷ weekly_step delist_sync 9 0 sat
    ∷ weekly_step factor_health_check 9 30 sat
    ∷ weekly_step industry_map_sync 9 0 sun
    ∷ []

-- `_STEP_SEQ`: the position in the topology, from 1.
abbrev pub step_seq : StepKey → ℕ
step_seq pool_sync = 1
step_seq index_sync = 2
step_seq sentiment_sync = 3
step_seq north_flow_sync = 4
step_seq money_flow_detail_sync = 5
step_seq sector_sync = 6
step_seq daily_k_sync = 7
step_seq dragon_tiger_sync = 8
step_seq market_agent_sync = 9
step_seq review_agent_sync = 10
step_seq trade_status_sync = 11
step_seq finance_sync = 12
step_seq paper_tick = 13
step_seq delist_sync = 14
step_seq factor_health_check = 15
step_seq industry_map_sync = 16

-- Equality of keys: they are at different positions.
abbrev pub same_key : StepKey → StepKey → Bool
same_key a b = step_seq a == step_seq b

-- `_STEP_INDEX.get`
unfoldable pub step_index : StepKey → Option StepSpec
step_index key = first (λ (s : StepSpec). same_key s.step_key key) pipeline_topology

abbrev alias_target : TaskName → Option StepKey
alias_target (step key) = some key
alias_target daily_k_sync_retry = some daily_k_sync
alias_target finance_sync_nightly = some finance_sync
alias_target (outside n) = none

unfoldable pub step_spec : TaskName → Option StepSpec
step_spec task = elim (alias_target task) [ none ↦ none | some key ↦ step_index key ]

unfoldable pub effective_retry_max : ℕ → StepSpec → ℕ
effective_retry_max setting spec = get_or setting spec.retry_max

abbrev pub is_daily : PipelineType → Bool
is_daily p = elim p [ daily ↦ true | weekly ↦ false ]

abbrev pub same_pipeline : PipelineType → PipelineType → Bool
same_pipeline daily p = is_daily p
same_pipeline weekly p = if is_daily p then false else true

abbrev pub pipeline_steps : PipelineType → List StepSpec
pipeline_steps p = keep (λ (s : StepSpec). same_pipeline s.pipeline p) pipeline_topology

abbrev last_of : StepKey → List StepSpec → StepKey
last_of key [] = key
last_of key (s ∷ specs) = last_of s.step_key specs

-- `[...][-1]`, the last key of a pipeline; both pipelines have steps.
unfoldable pub last_key : PipelineType → Option StepKey
last_key p = elim (pipeline_steps p) [ [] ↦ none | s ∷ specs ↦ some (last_of s.step_key specs) ]

abbrev pub key_of : Option StepSpec → Option StepKey
key_of none = none
key_of (some s) = some s.step_key

-- The positions are those of the topology.
pub step_seq-pipeline_topology :
    (key : StepKey) → key_of (get_elem? pipeline_topology (step_seq key - 1)) ≡ some key
step_seq-pipeline_topology pool_sync = refl
step_seq-pipeline_topology index_sync = refl
step_seq-pipeline_topology sentiment_sync = refl
step_seq-pipeline_topology north_flow_sync = refl
step_seq-pipeline_topology money_flow_detail_sync = refl
step_seq-pipeline_topology sector_sync = refl
step_seq-pipeline_topology daily_k_sync = refl
step_seq-pipeline_topology dragon_tiger_sync = refl
step_seq-pipeline_topology market_agent_sync = refl
step_seq-pipeline_topology review_agent_sync = refl
step_seq-pipeline_topology trade_status_sync = refl
step_seq-pipeline_topology finance_sync = refl
step_seq-pipeline_topology paper_tick = refl
step_seq-pipeline_topology delist_sync = refl
step_seq-pipeline_topology factor_health_check = refl
step_seq-pipeline_topology industry_map_sync = refl
