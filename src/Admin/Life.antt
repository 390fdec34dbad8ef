-- ===== src/Admin/Life.antt =====
-- Laws of `run_task`, `run_task_async` and the worker of the long tasks.
use stock_platform.Prelude.{
  ℕ, ◌+◌, ◌<◌, ◌≡◌, refl, arith, Bool, true, false, leb, if◌then◌else◌, Option, none, some, List,
  [], ◌∷◌, first, All, ==_refl, ap, ◌∙◌, subst,
}
use stock_platform.Prelude.Rows.{first-update, first-append-one, apply}
use stock_platform.Prelude.Result.{ok, value_error, or_raise}
use stock_platform.Pipeline.Topology.{TaskName}
use stock_platform.Pipeline.Tables.{Datetime, Trigger}
use stock_platform.Admin.{
  success, failed, LogRow, Desk, Ending, returned, raised, timed_out, raised_anew, caught, Work,
  World, deadline_for, run_with_deadline, open_log, is_log, begin_run, close_log, end_run, get_run,
  run_task,
}

-- What the log says of an ending; `no_rows` where it is an error.
abbrev pub Says : Option ℕ → Ending → LogRow → Type 0
Says no_rows (returned rows) r =
    (r.status ≡ success) × (r.rows_affected ≡ some rows) × (r.error ≡ none)
Says no_rows (raised text) r =
    (r.status ≡ failed) × (r.rows_affected ≡ no_rows) × (r.error ≡ some text)
Says no_rows (timed_out text) r =
    (r.status ≡ failed) × (r.rows_affected ≡ no_rows) × (r.error ≡ some text)

-- Every log has an id below the next one.
abbrev pub Fresh : Desk → Type 0
Fresh a = All (λ (r : LogRow). r.id < a.next_id) a.logs

first-Fresh :
    (id : ℕ) (logs : List LogRow)
    → All (λ (r : LogRow). r.id < id) logs
    → first (is_log id) logs ≡ none
first-Fresh id [] h = refl
first-Fresh id (r ∷ logs) (lt, rest) = ground (arith, lt, first-Fresh id logs rest)

-- The log that is closed.
abbrev pub Closed : Option ℕ → Ending → Datetime → Desk → ℕ → LogRow → Type 0
Closed no_rows ending now a id r =
    (first (is_log id) a.logs ≡ some r) × (r.finished_at ≡ some now) × Says no_rows ending r

pub end_run-Closed :
    (w : World) (no_rows : Option ℕ) (id : ℕ) (task : TaskName) (trigger : Trigger) (now : Datetime)
    (ending : Ending) (a : Desk) (old : LogRow)
    → first (is_log id) a.logs ≡ some old
    → (r : LogRow) × Closed no_rows ending now (end_run w no_rows id task trigger now ending a) id r
end_run-Closed w no_rows id task trigger now (returned rows) a old e =
    let close = close_log now success (some rows) none in
    (
      close old,
      (
        first-update (is_log id) close a.logs (λ r. refl) ∙ ap (apply close) e,
        refl,
        (refl, refl, refl),
      ),
    )
end_run-Closed w no_rows id task trigger now (raised text) a old e =
    let close = close_log now failed no_rows (some text) in
    (
      close old,
      (
        first-update (is_log id) close a.logs (λ r. refl) ∙ ap (apply close) e,
        refl,
        (refl, refl, refl),
      ),
    )
end_run-Closed w no_rows id task trigger now (timed_out text) a old e =
    let close = close_log now failed no_rows (some text) in
    (
      close old,
      (
        first-update (is_log id) close a.logs (λ r. refl) ∙ ap (apply close) e,
        refl,
        (refl, refl, refl),
      ),
    )

-- What the log row of `run_task` says of a run, by how its runner ends and after how long.
abbrev pub Tells : World → TaskName → Work → LogRow → Type 0
Tells w task work = Says (some 0) (
    if leb work.takes (deadline_for task)
    then caught w task work.ending
    else raised (w.timeout_text task))

caught-if :
    (w : World) (task : TaskName) (ending : Ending) (b : Bool)
    → caught w task (raised_anew w task (if b then ending else timed_out []))
      ≡ (if b then caught w task ending else raised (w.timeout_text task))
caught-if w task (returned rows) true = refl
caught-if w task (raised text) true = refl
caught-if w task (timed_out text) true = refl
caught-if w task ending false = refl

-- A registered task's run returns its log row, which stands under the id that was free, closed at the
-- time when the runner ended. Within the deadline it says success and the rows that were returned, or
-- failed with no rows and the error that was raised; past the deadline, or where the runner raised a
-- `TimeoutError` of its own, it says failed, no rows, and that the deadline was exceeded.
pub run_task-Tells :
    (w : World) (task : TaskName) (trigger : Trigger) (now : Datetime) (work : Work) (a : Desk)
    → w.is_registered task ≡ true
    → Fresh a
    → let (a', got) = run_task w task trigger now work a in
      (r : LogRow) × (got ≡ ok r)
      × (get_run a.next_id a' ≡ some r)
      × (r.finished_at ≡ some (now + work.takes))
      × Tells w task work r
unfolding run_task run_with_deadline
run_task-Tells w task trigger now work a known fresh =
    let begun = begin_run w task trigger now a in
    let row = open_log a.next_id task trigger now in
    let opened : first (is_log a.next_id) begun.logs ≡ some row =
      first-append-one (is_log a.next_id) a.logs row (first-Fresh a.next_id a.logs fresh)
        (==_refl a.next_id) in
    let (ending, took) = run_with_deadline w task work in
    let (r, (e, finished, says)) =
      end_run-Closed w (some 0) a.next_id task trigger (now + took) (caught w task ending) begun row
        opened in
    rw known (
      r,
      ap (λ o. or_raise o value_error) e,
      e,
      finished,
      subst (λ t. Says (some 0) t r)
          (caught-if w task work.ending (leb work.takes (deadline_for task))) says,
    )

-- A run that exceeds its deadline is given up only when its runner ends: however long that takes, the
-- call returns then, with a log row that says failed and that carries that later time.
pub run_task_late :
    (w : World) (task : TaskName) (trigger : Trigger) (now : Datetime) (work : Work) (a : Desk)
    → w.is_registered task ≡ true
    → Fresh a
    → deadline_for task < work.takes
    → (r : LogRow) × ((run_task w task trigger now work a).1 ≡ ok r)
      × (r.status ≡ failed)
      × (r.error ≡ some (w.timeout_text task))
      × (r.finished_at ≡ some (now + work.takes))
run_task_late w task trigger now work a known fresh late =
    let (r, got, at_id, finished, tells) = run_task-Tells w task trigger now work a known fresh in
    let over : leb work.takes (deadline_for task) ≡ false = ground (arith, late) in
    let (bad, none_written, text) : Says (some 0) (raised (w.timeout_text task)) r =
      subst
        (λ b.
          Says (some 0) (if b then caught w task work.ending else raised (w.timeout_text task)) r)
        over tells in
    (r, got, bad, text, finished)
