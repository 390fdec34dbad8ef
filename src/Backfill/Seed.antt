-- ===== src/Backfill/Seed.antt =====
-- The rows of the state tables: `ensure_state`, `reset_failed` and `history_progress` of
-- backend/app/data/history_backfill.py, and `ensure_state`, `enqueue_priority`, `reset_failed` and
-- `progress` of backend/app/data/kline_rebuild.py.
pub mod Laws
pub mod Urgent
use stock_platform.Prelude.{
  ℕ, ◌+◌, ◌*◌, ◌-◌, ◌==◌, ◌&&◌, Bool, true, false, if◌then◌else◌, Option, none, some, List, [], ◌∷◌,
  ◌++◌, keep, count, exists, elem, length,
}
use stock_platform.Prelude.Rows.{update}
use stock_platform.Prelude.Dict.{Dict, lookup, get_or, contains}
use stock_platform.Prelude.Result.{Result, ok, ◌>>=◌}
use stock_platform.Float.{Float, ◌⊗◌, nought, divide}
use stock_platform.Calendar.{Date}
use stock_platform.Execution.{Code}
use stock_platform.Backfill.Windows.{target_start_for}
use stock_platform.Backfill.State.{
  SyncStatus, pending, done, failed, Row, Bars, earliest_bar, bar_count, is_complete,
}
use stock_platform.Backfill.Visit.{is_pending}

-- A state table and the next id.
pub record Table : Type 0 where
  pub rows : List Row
  pub next_id : ℕ

-- `{code: list_date}` of the freshest snapshot.
abbrev pub Pool : Type 0
Pool = Dict (Option Date)

abbrev pub has_code : Code → Row → Bool
has_code code r = r.stock_code == code

abbrev pub fresh_row : ℕ → Code → Date → Option Date → SyncStatus → ℕ → Row
fresh_row id code target earliest status priority = record {
  id = id;
  stock_code = code;
  target_start = target;
  earliest_bar = earliest;
  status = status;
  attempts = 0;
  priority = priority;
  last_error = none;
}

-- `[c for c in pool if c not in existing]`
abbrev pub missing : Pool → List Row → Pool
missing [] rows = []
missing ((c, listed) ∷ pool) rows =
    let rest = missing pool rows in if exists (has_code c) rows then rest else (c, listed) ∷ rest

-- The row of a contaminated code is queued again.
abbrev pub requeue : Row → Row
requeue r = record r { priority = 0; status = pending; attempts = 0; last_error = none }

abbrev pub requeue_codes : List Code → List Row → List Row
requeue_codes [] rows = rows
requeue_codes (c ∷ codes) rows = requeue_codes codes (update (has_code c) requeue rows)

module _ (F : Type 0) ⦃fl : Float F⦄ where
  -- The rows for the missing codes; what holds a complete history already is done.
  unfoldable pub seed_rows : ℕ → Date → Bars → List Code → ℕ → Pool → Result (List Row)
  seed_rows years today bars urgent id [] = ok []
  seed_rows years today bars urgent id ((c, listed) ∷ pool) =
      let rest = seed_rows years today bars urgent (id + 1) pool in
      let target = target_start_for years listed today in
      let earliest = earliest_bar bars c in
      do
        whole ← is_complete F target today earliest (bar_count bars c)
        later ← rest
        let status = if whole then done else pending
        let priority = if elem c urgent then 0 else 1
        ok (fresh_row id c target earliest status priority ∷ later)

  -- Rows that exist are left as they are, but for the contaminated codes of the pool. The number of inserted rows
  -- comes with the table; with no code urgent this is the history's version.
  unfoldable pub ensure_state : ℕ → Date → Bars → List Code → Pool → Table → Result (Table × ℕ)
  ensure_state years today bars urgent pool t = do
    let new_codes = missing pool t.rows
    seeded ← seed_rows years today bars urgent t.next_id new_codes
    let rows =
        requeue_codes (keep (λ c. contains c pool && exists (has_code c) t.rows) urgent) t.rows
    let n = length seeded
    ok (record { rows = rows ++ seeded; next_id = t.next_id + n }, n)

  -- `progress_pct`
  abbrev pub percent : ℕ → ℕ → Result F
  percent part total =
      let share = (do
        q ← divide (fl.of_ℕ part) (fl.of_ℕ total)
        ok (fl.round (q ⊗ fl.of_ℕ 100) 2)) in
      if total == 0 then ok nought else share

-- `reset_failed`, with the number of rows that it changes
abbrev pub is_failed : Row → Bool
is_failed r = elim r.status [ failed ↦ true | _ ↦ false ]

abbrev pub is_done : Row → Bool
is_done r = elim r.status [ done ↦ true | _ ↦ false ]

abbrev pub revive : Row → Row
revive r = record r { status = pending; attempts = 0; last_error = none }

unfoldable pub reset_failed : List Row → List Row × ℕ
reset_failed rows = (update is_failed revive rows, count is_failed rows)

-- The counts of `history_progress`: in all, pending, done and failed.
pub record Progress : Type 0 where
  pub total : ℕ
  pub pending : ℕ
  pub done : ℕ
  pub failed : ℕ

unfoldable pub progress : List Row → Progress
progress rows =
    let waiting = count (λ (r : Row). is_pending r.status) rows in
    let finished = count is_done rows in
    let parked = count is_failed rows in
    record {
      total = waiting + finished + parked;
      pending = waiting;
      done = finished;
      failed = parked;
    }

abbrev pub new_row : ℕ → Date → Pool → Code → Table → Row
new_row years today pool c t =
    let target = target_start_for years (get_or none (lookup c pool)) today in
    fresh_row t.next_id c target none pending 0

-- One code of the contaminated list; `known` are the rows that stood in the table before.
abbrev pub enqueue_code : ℕ → Date → Pool → List Row → Code → Table → Table
enqueue_code years today pool known c t =
    if exists (has_code c) known
    then record t { rows = update (has_code c) requeue t.rows }
    else record { rows = t.rows ++ (new_row years today pool c t ∷ []); next_id = t.next_id + 1 }

abbrev pub enqueue_codes : ℕ → Date → Pool → List Row → List Code → Table → Table
enqueue_codes years today pool known [] t = t
enqueue_codes years today pool known (c ∷ codes) t =
    enqueue_codes years today pool known codes (enqueue_code years today pool known c t)

-- The table, and the number of the codes.
unfoldable pub enqueue_priority : ℕ → Date → Pool → List Code → Table → Table × ℕ
enqueue_priority years today pool codes t =
    (enqueue_codes years today pool t.rows codes t, length codes)
