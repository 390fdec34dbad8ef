-- ===== src/Backfill/Batch.antt =====
-- One batch of a back-fill: `next_pending` and the loops of `run_history_batch` in
-- backend/app/data/history_backfill.py and `run_batch` in backend/app/data/kline_rebuild.py.
pub mod Steps
pub mod Selection
pub mod Drain
pub mod Settled
pub mod Breaker
use stock_platform.Prelude.{
  ℕ, zero, suc, ◌+◌, ◌==◌, ◌&&◌, Bool, true, false, ltb, leb, if◌then◌else◌, Option, none, some,
  List, [], ◌∷◌, first, keep, count,
}
use stock_platform.Prelude.Rows.{update}
use stock_platform.Prelude.Result.{Result, ok, err, Error, ◌>>=◌}
use stock_platform.Float.{Float}
use stock_platform.Calendar.{Date}
use stock_platform.Execution.{Code}
use stock_platform.Backfill.Windows.{Window, chunk_windows, chunk_days}
use stock_platform.Backfill.State.{
  SyncStatus, pending, done, failed, Trouble, raised, incomplete, Row, Bars, earliest_bar,
  bar_count, max_attempts, is_complete, complete_from_own_start,
}
use stock_platform.Backfill.Visit.{Policy, Fetch, circuit_breaker, is_pending, Visit, visit}

-- The rows that `next_pending` selects.
abbrev pub is_due : Row → Bool
is_due r = is_pending r.status && ltb r.attempts max_attempts

-- By priority, attempts and id.
abbrev pub before : Row → Row → Bool
before a b =
    if ltb a.priority b.priority
    then true
    else if ltb b.priority a.priority
    then false
    else if ltb a.attempts b.attempts
    then true
    else if ltb b.attempts a.attempts
    then false
    else ltb a.id b.id

abbrev pub insert_row : Row → List Row → List Row
insert_row r [] = r ∷ []
insert_row r (s ∷ rows) =
    let rest = insert_row r rows in if before s r then s ∷ rest else r ∷ s ∷ rows

unfoldable pub sort_rows : List Row → List Row
sort_rows [] = []
sort_rows (r ∷ rows) = insert_row r (sort_rows rows)

abbrev pub take_ids : ℕ → List Row → List ℕ
take_ids zero rows = []
take_ids (suc n) [] = []
take_ids (suc n) (r ∷ rows) = r.id ∷ take_ids n rows

unfoldable pub next_pending : ℕ → List Row → List ℕ
next_pending limit rows = take_ids limit (sort_rows (keep is_due rows))

-- What the loop changes: the rows of the session and the committed ones, the bars, the numbers that
-- the tick reports, and the errors in a row.
pub record Batch : Type 0 where
  pub rows : List Row
  pub saved : List Row
  pub bars : Bars
  pub synced : ℕ
  pub rows_total : ℕ
  pub done : ℕ
  pub failed : ℕ
  pub consecutive : ℕ

abbrev pub has_id : ℕ → Row → Bool
has_id id r = r.id == id

abbrev pub commit : Batch → Batch
commit b = record b { saved = b.rows }

abbrev one_if : Bool → ℕ
one_if b = if b then 1 else 0

abbrev total_of : Option ℕ → ℕ
total_of none = 0
total_of (some n) = n

abbrev reached : Option ℕ → ℕ
reached none = 0
reached (some n) = 1

-- The numbers after a visit. A check that raises after the fetch has counted the stock already.
abbrev pub tally : ℕ → Bars → Visit → Batch → Batch
tally id bars v b =
    let parked = if v.complete then false else leb max_attempts v.row.attempts in
    let before_error : ℕ = elim v.written [ none ↦ b.consecutive | some n ↦ 0 ] in
    record b {
      rows = update (has_id id) (λ _. v.row) b.rows;
      bars = bars;
      synced = b.synced + reached v.written + one_if v.error;
      rows_total = b.rows_total + total_of v.written;
      done = b.done + one_if v.complete;
      failed = b.failed + one_if parked;
      consecutive = if v.error then before_error + 1 else before_error;
    }

abbrev pub opening : List Row → Bars → Batch
opening rows bars = record {
  rows = rows;
  saved = rows;
  bars = bars;
  synced = 0;
  rows_total = 0;
  done = 0;
  failed = 0;
  consecutive = 0;
}

module _ (F : Type 0) ⦃fl : Float F⦄ (policy : Policy) where
  abbrev tripped : Visit → Batch → Bool
  tripped v b = v.error && leb circuit_breaker b.consecutive

  -- The end of a round: the circuit breaker leaves the loop, or the next round follows a commit.
  abbrev pub next_round : (Batch → Batch) → Bool → Batch → Batch
  next_round rest true b = if policy.commits_last then commit b else b
  next_round rest false b = rest (commit b)

  -- The batch after a visit of a row.
  abbrev pub visited : Fetch → Date → ℕ → Row → Batch → Batch
  visited fetch today id r b =
      let (bars, v) = visit F policy fetch today r b.bars in tally id bars v b

  unfoldable pub round : (Batch → Batch) → Fetch → Date → ℕ → Batch → Option Row → Batch
  round rest fetch today id b none = rest b
  round rest fetch today id b (some r) =
      let v = (visit F policy fetch today r b.bars).1 in
      let b1 = visited fetch today id r b in next_round rest (tripped v b1) b1

  -- The loop over the batch. Each row is the session's object of its id.
  unfoldable pub run_loop : Fetch → Date → List ℕ → Batch → Batch
  unfolding round
  run_loop fetch today [] b = b
  run_loop fetch today (id ∷ ids) b =
      round (run_loop fetch today ids) fetch today id b (first (has_id id) b.rows)

  unfoldable pub run_batch : Fetch → Date → ℕ → List Row → Bars → Batch
  run_batch fetch today limit rows bars =
      run_loop fetch today (next_pending limit rows) (opening rows bars)

-- `remaining`, by the rows of the session.
abbrev pub remaining : Batch → ℕ
remaining b = count is_due b.rows
