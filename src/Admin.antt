-- ===== src/Admin.antt =====
-- The runs of a task: `run_task`, `run_task_async` and their parts in backend/app/services/admin_service.py,
-- with the hooks of the job pipeline. What a task does to the data tables is left out.
pub mod Life
pub mod Queue
use stock_platform.Prelude.{
  ℕ, ◌+◌, ◌==◌, ◌&&◌, Bool, true, false, leb, if◌then◌else◌, Option, none, some, List, [], ◌∷◌,
  ◌++◌, first,
}
use stock_platform.Prelude.Rows.{update}
use stock_platform.Prelude.Result.{Result, ok, err, value_error, or_raise, ◌>>=◌}
use stock_platform.Pipeline.Topology.{TaskName, finance_sync_nightly}
use stock_platform.Pipeline.Tables.{Db, Text, Datetime, Trigger}
use stock_platform.Pipeline.Hooks.{Env, on_step_start}
use stock_platform.Pipeline.Finish.{on_step_finish}

pub data Phase : Type 0 where
  running success failed : Phase

-- A row of `sa_admin_task_log`.
pub record LogRow : Type 0 where
  pub id : ℕ
  pub task_name : TaskName
  pub started_at : Datetime
  pub finished_at : Option Datetime
  pub status : Phase
  pub rows_affected : Option ℕ
  pub error : Option Text
  pub triggered_by : Trigger

-- A long task that waits for the one worker.
pub record Submitted : Type 0 where
  pub log_id : ℕ
  pub task_name : TaskName
  pub triggered_by : Trigger

pub record Desk : Type 0 where
  pub logs : List LogRow
  pub next_id : ℕ
  pub queue : List Submitted
  pub pipeline : Db

-- How a runner ends, with `str(e)` of what it raised, and after how long. A `TimeoutError` is told
-- from the other exceptions.
pub data Ending : Type 0 where
  returned : (rows : ℕ) → Ending
  raised : (text : Text) → Ending
  timed_out : (text : Text) → Ending

pub record Work : Type 0 where
  pub takes : ℕ
  pub ending : Ending

-- The registry of the runners, the set `_LONG_TASKS`, the messages of an exceeded deadline in the log
-- and in the `TimeoutError`, and what the hooks read at a time.
pub record World : Type 0 where
  pub is_registered : TaskName → Bool
  pub is_long : TaskName → Bool
  pub timeout_text : TaskName → Text
  pub exceeded_text : TaskName → Text
  pub at_time : Datetime → Env

-- Microseconds.
unfoldable pub deadline_for : TaskName → ℕ
deadline_for task = elim task [ finance_sync_nightly ↦ 3_600_000_000 | _ ↦ 300_000_000 ]

-- A `TimeoutError`, the wait's or the runner's, is raised anew.
abbrev pub raised_anew : World → TaskName → Ending → Ending
raised_anew w task (returned rows) = returned rows
raised_anew w task (raised text) = raised text
raised_anew w task (timed_out text) = timed_out (w.exceeded_text task)

-- The end that the caller sees, and how long the call takes: leaving the `with` block of the pool
-- waits for the worker thread, also where the wait for its result has timed out.
unfoldable pub run_with_deadline : World → TaskName → Work → Ending × ℕ
unfolding deadline_for
run_with_deadline w task work = (
  raised_anew w task (if leb work.takes (deadline_for task) then work.ending else timed_out []),
  work.takes,
)

-- The two `except` clauses of `run_task`: any `TimeoutError` is logged as an exceeded deadline, also
-- one that the runner raised itself.
abbrev pub caught : World → TaskName → Ending → Ending
caught w task (returned rows) = returned rows
caught w task (raised text) = raised text
caught w task (timed_out text) = raised (w.timeout_text task)

abbrev pub open_log : ℕ → TaskName → Trigger → Datetime → LogRow
open_log id task trigger now = record {
  id = id;
  task_name = task;
  started_at = now;
  finished_at = none;
  status = running;
  rows_affected = none;
  error = none;
  triggered_by = trigger;
}

abbrev pub is_log : ℕ → LogRow → Bool
is_log id r = r.id == id

-- The log row comes first, and then the hook.
abbrev pub begin_run : World → TaskName → Trigger → Datetime → Desk → Desk
begin_run w task trigger now a = record a {
  logs = a.logs ++ (open_log a.next_id task trigger now ∷ []);
  next_id = a.next_id + 1;
  pipeline = on_step_start (w.at_time now) (some a.next_id) task a.pipeline;
}

-- `_finalize_run`
abbrev pub close_log : Datetime → Phase → Option ℕ → Option Text → LogRow → LogRow
close_log now status rows error r = record r {
  finished_at = some now;
  status = status;
  rows_affected = rows;
  error = error;
}

abbrev pub finalize_run : ℕ → Datetime → Phase → Option ℕ → Option Text → Desk → Desk
finalize_run id now status rows error a = record a {
  logs = update (is_log id) (close_log now status rows error) a.logs;
}

-- The outcome is written to the log, and then goes to the hook. A failed run has affected the rows
-- that its caller says.
abbrev pub fail_run : World → Option ℕ → ℕ → TaskName → Trigger → Datetime → Text → Desk → Desk
fail_run w no_rows id task trigger now text a =
    let done = finalize_run id now failed no_rows (some text) a in
    record done {
      pipeline =
          on_step_finish (w.at_time now) (some id) false (some text) trigger task done.pipeline;
    }

abbrev pub end_run : World → Option ℕ → ℕ → TaskName → Trigger → Datetime → Ending → Desk → Desk
end_run w no_rows id task trigger now (returned rows) a =
    let done = finalize_run id now success (some rows) none a in
    record done {
      pipeline = on_step_finish (w.at_time now) (some id) true none trigger task done.pipeline;
    }
end_run w no_rows id task trigger now (raised text) a =
    fail_run w no_rows id task trigger now text a
end_run w no_rows id task trigger now (timed_out text) a =
    fail_run w no_rows id task trigger now text a

-- `get_run`
unfoldable pub get_run : ℕ → Desk → Option LogRow
get_run id a = first (is_log id) a.logs

abbrev pub run_known : World → TaskName → Trigger → Datetime → Work → Desk → Desk
run_known w task trigger now work a =
    let (ending, took) = run_with_deadline w task work in
    end_run w (some 0) a.next_id task trigger (now + took) (caught w task ending)
      (begin_run w task trigger now a)

unfoldable pub run_task : World → TaskName → Trigger → Datetime → Work → Desk → Desk × Result LogRow
unfolding run_with_deadline get_run
run_task w task trigger now work a =
    let done = run_known w task trigger now work a in
    if w.is_registered task
    then (done, or_raise (get_run a.next_id done) value_error)
    else (a, err value_error)

unfoldable pub run_task_async : World → TaskName → Trigger → Datetime → Desk → Desk × Result ℕ
run_task_async w task trigger now a =
    let begun = begin_run w task trigger now a in
    let item : Submitted = record {
      log_id = a.next_id;
      task_name = task;
      triggered_by = trigger;
    } in
    if w.is_long task && w.is_registered task
    then (record begun { queue = begun.queue ++ (item ∷ []) }, ok a.next_id)
    else (a, err value_error)

-- The worker takes the first submission; its runner has no deadline.
abbrev pub work_off : World → Datetime → Work → Desk → List Submitted → Desk
work_off w now work a [] = a
work_off w now work a (s ∷ queue) =
    end_run w none s.log_id s.task_name s.triggered_by (now + work.takes) work.ending
      (record a { queue = queue })

unfoldable pub worker : World → Datetime → Work → Desk → Desk
worker w now work a = work_off w now work a a.queue

-- The worker's steps for the submissions in the queue, one after another.
unfoldable pub work_all : World → Datetime → List Work → Desk → Desk
unfolding worker
work_all w now [] a = a
work_all w now (work ∷ works) a = work_all w (now + work.takes) works (worker w now work a)
