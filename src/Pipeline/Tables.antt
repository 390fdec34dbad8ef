-- ===== src/Pipeline/Tables.antt =====
-- The tables of backend/app/models/pipeline.py, the alert rows of the quality tables that the
-- pipeline writes, and the retry jobs in the scheduler.
use stock_platform.Prelude.{ℕ, Bool, true, false, Option, List}
use stock_platform.Prelude.Int.{ℤ}
use stock_platform.Calendar.{Date}
use stock_platform.Pipeline.Topology.{StepKey, PipelineType}

-- Text is a list of characters, and a time is in microseconds.
abbrev pub Text : Type 0
Text = List ℕ

abbrev pub Datetime : Type 0
Datetime = ℕ

pub data RunStatus : Type 0 where
  running success partial failed : RunStatus

pub data StepStatus : Type 0 where
  pending running success failed skipped : StepStatus

pub record Run : Type 0 where
  pub id : ℕ
  pub run_date : Date
  pub pipeline_type : PipelineType
  pub status : RunStatus
  pub started_at : Datetime
  pub finished_at : Option Datetime

pub record Step : Type 0 where
  pub id : ℕ
  pub run_id : ℕ
  pub step_key : StepKey
  pub seq : ℕ
  pub status : StepStatus
  pub attempts : ℕ
  pub started_at : Option Datetime
  pub finished_at : Option Datetime
  pub duration_ms : Option ℤ
  pub error : Option Text
  pub task_log_id : Option ℕ

-- `triggered_by`: the cron job, the retry job, or a person.
pub data Trigger : Type 0 where
  scheduler scheduler_retry manual : Trigger

-- What an alert says: the failure itself, or the patrol's refresh. The column holds it as JSON text.
pub data Detail : Type 0 where
  failure : (attempts : ℕ) → Trigger → Text → Detail
  patrol_refresh : Detail

-- A row `step_failed:<key>` of the check `pipeline_health`, one per date and key.
pub record Alert : Type 0 where
  pub check_date : Date
  pub step_key : StepKey
  pub detail : Detail

-- The one-shot job `retry:<key>:<attempts>`.
pub record Job : Type 0 where
  pub step_key : StepKey
  pub attempts : ℕ
  pub run_at : Datetime

pub record Db : Type 0 where
  pub runs : List Run
  pub steps : List Step
  pub next_run : ℕ
  pub next_step : ℕ
  pub alerts : List Alert
  pub jobs : List Job

-- `status in (STEP_SUCCESS, STEP_SKIPPED)`
abbrev pub is_done : StepStatus → Bool
is_done s = elim s [ success ↦ true | skipped ↦ true | _ ↦ false ]

abbrev pub is_failed : StepStatus → Bool
is_failed s = elim s [ failed ↦ true | _ ↦ false ]
