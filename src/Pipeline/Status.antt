-- ===== src/Pipeline/Status.antt =====
-- The run's status as a function of its steps: `recompute_run_status` and `_run_is_final` of
-- backend/app/services/pipeline_service.py.
pub mod Laws
use stock_platform.Prelude.{
  Bool, true, false, ◌&&◌, ◌||◌, List, [], ◌∷◌, if◌then◌else◌, exists, none, some,
}
use stock_platform.Pipeline.Topology.{StepKey, PipelineType, last_key, same_key}
use stock_platform.Pipeline.Tables.{
  StepStatus, RunStatus, running, success, partial, failed, Step, is_done, is_failed,
}

-- A materialised step: its status, and whether it is critical.
abbrev pub State : Type 0
State = StepStatus × Bool

abbrev pub is_critical_failure : State → Bool
is_critical_failure s = is_failed s.0 && s.1

abbrev pub all_done : List State → Bool
all_done [] = true
all_done (s ∷ states) = is_done s.0 && all_done states

abbrev pub some_state : List State → Bool
some_state [] = false
some_state (_ ∷ _) = true

unfoldable pub recompute_run_status : List State → Bool → RunStatus
recompute_run_status states final =
    if exists is_critical_failure states
    then failed
    else if final
    then (if exists (λ (s : State). is_failed s.0) states
        then partial
        else if some_state states && all_done states
        then success
        else running)
    else running

abbrev is_terminal : StepStatus → Bool
is_terminal s = is_done s || is_failed s

-- The first row of the last step decides.
abbrev pub final_at : StepKey → List Step → Bool
final_at key [] = false
final_at key (st ∷ steps) =
    let rest = final_at key steps in
    if same_key st.step_key key then is_terminal st.status else rest

unfoldable pub run_is_final : PipelineType → List Step → Bool
run_is_final pipeline steps = elim (last_key pipeline) [
  | none ↦ false
  | some key ↦ final_at key steps
]
