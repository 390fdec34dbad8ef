-- ===== src/Admin/Queue.antt =====
-- Laws of the worker of the long tasks.
use stock_platform.Prelude.{
  ℕ, ◌+◌, ◌≤◌, ◌==◌, ◌≡◌, ◌≢◌, refl, arith, Bool, true, false, Option, none, some, List, [], ◌∷◌,
  first, All, length, inl, inr, Bool-cases, Option-cases, ap, sym, subst,
}
use stock_platform.Prelude.Rows.{update}
use stock_platform.Pipeline.Topology.{TaskName}
use stock_platform.Pipeline.Tables.{Datetime, Trigger}
use stock_platform.Admin.{
  running, success, failed, LogRow, Submitted, Desk, Ending, returned, raised, timed_out, Work,
  World, is_log, close_log, end_run, work_off, worker, work_all,
}
use stock_platform.Admin.Life.{Closed, end_run-Closed}

-- A log with an outcome.
abbrev pub is_settled : ℕ → Desk → Bool
is_settled id a = elim (first (is_log id) a.logs) [
  | none ↦ false
  | some r ↦ elim r.status [ running ↦ false | success ↦ true | failed ↦ true ]
]

abbrev pub has_log : ℕ → Desk → Bool
has_log id a = elim (first (is_log id) a.logs) [ none ↦ false | some _ ↦ true ]

other_log :
    (j id : ℕ) (close : LogRow → LogRow) (logs : List LogRow)
    → ((r : LogRow) → (close r).id ≡ r.id)
    → j ≢ id
    → first (is_log j) (update (is_log id) close logs) ≡ first (is_log j) logs
other_log j id close [] stable ne = refl
other_log j id close (r ∷ logs) stable ne =
    ground (arith, stable r, ne, other_log j id close logs stable ne)

-- The end of one run leaves the logs of the others alone.
end_run-other :
    (w : World) (no_rows : Option ℕ) (id j : ℕ) (task : TaskName) (trigger : Trigger)
    (now : Datetime) (ending : Ending) (a : Desk)
    → j ≢ id
    → first (is_log j) (end_run w no_rows id task trigger now ending a).logs
      ≡ first (is_log j) a.logs
end_run-other w no_rows id j task trigger now (returned rows) a ne =
    other_log j id (close_log now success (some rows) none) a.logs (λ r. refl) ne
end_run-other w no_rows id j task trigger now (raised text) a ne =
    other_log j id (close_log now failed no_rows (some text)) a.logs (λ r. refl) ne
end_run-other w no_rows id j task trigger now (timed_out text) a ne =
    other_log j id (close_log now failed no_rows (some text)) a.logs (λ r. refl) ne

settled_of :
    (id : ℕ) (a : Desk) (no_rows : Option ℕ) (ending : Ending) (now : Datetime) (r : LogRow)
    → Closed no_rows ending now a id r
    → is_settled id a ≡ true
settled_of id a no_rows (returned rows) now r (e, _, says) =
    let s = says.0 in rw (is_settled, e, s) refl
settled_of id a no_rows (raised text) now r (e, _, says) =
    let s = says.0 in rw (is_settled, e, s) refl
settled_of id a no_rows (timed_out text) now r (e, _, says) =
    let s = says.0 in rw (is_settled, e, s) refl

has_log_of :
    (id : ℕ) (a : Desk) → has_log id a ≡ true → (r : LogRow) × (first (is_log id) a.logs ≡ some r)
has_log_of id a h = elim (Option-cases (first (is_log id) a.logs)) [
  | inl e ↦ ground (arith, e, h)
  | inr found ↦ found
]

has_log_settled : (id : ℕ) (a : Desk) → is_settled id a ≡ true → has_log id a ≡ true
has_log_settled id a h = elim (Option-cases (first (is_log id) a.logs)) [
  | inl e ↦ ground (arith, e, h)
  | inr (r, e) ↦ ground (arith, e)
]

-- The step of the worker for one submission.
abbrev step_for : World → Datetime → Work → Desk → Submitted → Desk
step_for w now work a s =
    end_run w none s.log_id s.task_name s.triggered_by (now + work.takes) work.ending a

settles :
    (w : World) (now : Datetime) (work : Work) (a : Desk) (s : Submitted)
    → has_log s.log_id a ≡ true
    → is_settled s.log_id (step_for w now work a s) ≡ true
settles w now work a s h =
    let (old, e) = has_log_of s.log_id a h in
    let (r, closed) =
      end_run-Closed w none s.log_id s.task_name s.triggered_by (now + work.takes) work.ending a old
        e in
    settled_of s.log_id (step_for w now work a s) none work.ending (now + work.takes) r closed

-- What the worker does for one submission keeps the outcomes of all logs, and the logs.
settled-step_for :
    (w : World) (now : Datetime) (work : Work) (a : Desk) (s : Submitted) (j : ℕ)
    → is_settled j a ≡ true
    → is_settled j (step_for w now work a s) ≡ true
settled-step_for w now work a s j h = elim (Bool-cases (j == s.log_id)) [
  | inl same ↦
      let e : s.log_id ≡ j = ground (arith, same) in
      subst (λ k. is_settled k (step_for w now work a s) ≡ true) e
        (settles w now work a s (subst (λ k. has_log k a ≡ true) (sym e) (has_log_settled j a h)))
  | inr other ↦
      let ne : j ≢ s.log_id = ground (arith, other) in
      rw
        (
          is_settled,
          end_run-other w none s.log_id j s.task_name s.triggered_by (now + work.takes) work.ending
              a ne,
        )
        h
]

has_log-step_for :
    (w : World) (now : Datetime) (work : Work) (a : Desk) (s : Submitted) (j : ℕ)
    → has_log j a ≡ true
    → has_log j (step_for w now work a s) ≡ true
has_log-step_for w now work a s j h = elim (Bool-cases (j == s.log_id)) [
  | inl same ↦
      let e : s.log_id ≡ j = ground (arith, same) in
      has_log_settled j (step_for w now work a s) (
        subst (λ k. is_settled k (step_for w now work a s) ≡ true) e
          (settles w now work a s (subst (λ k. has_log k a ≡ true) (sym e) h)))
  | inr other ↦
      let ne : j ≢ s.log_id = ground (arith, other) in
      rw
        (
          has_log,
          end_run-other w none s.log_id j s.task_name s.triggered_by (now + work.takes) work.ending
              a ne,
        )
        h
]

queue-end_run :
    (w : World) (no_rows : Option ℕ) (id : ℕ) (task : TaskName) (trigger : Trigger) (now : Datetime)
    (ending : Ending) (a : Desk)
    → (end_run w no_rows id task trigger now ending a).queue ≡ a.queue
queue-end_run w no_rows id task trigger now (returned rows) a = refl
queue-end_run w no_rows id task trigger now (raised text) a = refl
queue-end_run w no_rows id task trigger now (timed_out text) a = refl

settled-work_off :
    (w : World) (now : Datetime) (work : Work) (a : Desk) (queue : List Submitted) (j : ℕ)
    → is_settled j a ≡ true
    → is_settled j (work_off w now work a queue) ≡ true
settled-work_off w now work a [] j h = h
settled-work_off w now work a (s ∷ queue) j h =
    settled-step_for w now work (record a { queue = queue }) s j h

settled-work_all :
    (w : World) (now : Datetime) (works : List Work) (a : Desk) (j : ℕ)
    → is_settled j a ≡ true
    → is_settled j (work_all w now works a) ≡ true
unfolding work_all
settled-work_all w now [] a j h = h
settled-work_all w now (work ∷ works) a j h =
    settled-work_all w (now + work.takes) works (worker w now work a) j
      (settled-work_off w now work a a.queue j h)

-- The submissions whose logs have an outcome, and those whose logs are there.
abbrev pub AreSettled : List Submitted → Desk → Type 0
AreSettled queue a = All (λ (s : Submitted). is_settled s.log_id a ≡ true) queue

abbrev pub HaveLogs : List Submitted → Desk → Type 0
HaveLogs queue a = All (λ (s : Submitted). has_log s.log_id a ≡ true) queue

HaveLogs-step_for :
    (w : World) (now : Datetime) (work : Work) (a : Desk) (s : Submitted) (queue : List Submitted)
    → HaveLogs queue a
    → HaveLogs queue (step_for w now work a s)
HaveLogs-step_for w now work a s [] _ = tt
HaveLogs-step_for w now work a s (t ∷ queue) (h, rest) =
    (has_log-step_for w now work a s t.log_id h, HaveLogs-step_for w now work a s queue rest)

work_all-queue :
    (w : World) (now : Datetime) (works : List Work) (a : Desk) (queue : List Submitted)
    → a.queue ≡ queue
    → HaveLogs queue a
    → length queue ≤ length works
    → AreSettled queue (work_all w now works a)
unfolding work_all
work_all-queue w now works a [] e h le = tt
work_all-queue w now [] a (s ∷ queue) e h le = ground (arith, le)
work_all-queue w now (work ∷ works) a (s ∷ queue) e (here, rest) le =
    let cut : Desk = record a { queue = queue } in
    let next = step_for w now work cut s in
    let same : work_off w now work a (s ∷ queue) ≡ worker w now work a =
      ap (work_off w now work a) (sym e) in
    subst (λ b. AreSettled (s ∷ queue) (work_all w (now + work.takes) works b)) same
      (
        settled-work_all w (now + work.takes) works next s.log_id (settles w now work cut s here),
        work_all-queue w (now + work.takes) works next queue
            (queue-end_run w none s.log_id s.task_name s.triggered_by (now + work.takes) work.ending
              cut)
            (HaveLogs-step_for w now work cut s queue rest) (omega (arith, le)),
      )

-- The worker leaves no submission without an outcome: once it has run as many runners as the queue
-- held, whether they returned or raised, every log of the queue says success or failed.
pub work_all-AreSettled :
    (w : World) (now : Datetime) (works : List Work) (a : Desk)
    → HaveLogs a.queue a
    → length a.queue ≤ length works
    → AreSettled a.queue (work_all w now works a)
work_all-AreSettled w now works a h le = work_all-queue w now works a a.queue refl h le
