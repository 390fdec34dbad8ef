-- ===== src/Single/Runs.antt =====
-- The life of a backtest run: `create_backtest_run`, `run_backtest` up to the engine,
-- `execute_and_store`, `get_run` and `get_result`.
pub mod Life
use stock_platform.Prelude.{
  ℕ, ◌+◌, ◌==◌, ◌||◌, Bool, true, false, ltb, if◌then◌else◌, Option, none, some, List, [], ◌∷◌,
  ◌++◌, first, length,
}
use stock_platform.Prelude.Rows.{update}
use stock_platform.Prelude.Result.{Result, ok, err, Error, value_error, pending_rollback, ◌>>=◌}
use stock_platform.Float.{Float}
use stock_platform.Calendar.{Date}
use stock_platform.Execution.{Code}
use stock_platform.TradeStatus.Compute.{Bar, Status}
use stock_platform.Samples.{Flags, is_filtering, is_empty, Meta, apply_sample_filters}

pub data RunStatus : Type 0 where
  pending running done failed : RunStatus

-- A row of `sa_backtest_run`. `P` holds the strategy's own parameters; `sample` and `benchmark` ride
-- along with them under reserved keys.
pub record Run (F P : Type 0) : Type 0 where
  pub run_id : ℕ
  pub user_id : Option ℕ
  pub strategy : ℕ
  pub params : P
  pub benchmark : Option Code
  pub sample : Option Flags
  pub stock_pool : List Code
  pub start_date : Date
  pub end_date : Date
  pub initial_cash : F
  pub status : RunStatus
  pub error : Option Error

-- A row of `sa_backtest_result`, with the metrics of the engine.
pub record Outcome (M : Type 0) : Type 0 where
  pub run_id : ℕ
  pub metrics : M

pub record Db (F P M : Type 0) : Type 0 where
  pub runs : List (Run F P)
  pub results : List (Outcome M)
  pub statuses : List Status

-- What `run_backtest` calls: the registry of strategies, the rows of K-lines, and backtrader with the
-- metrics read off it, on the code and its rows. `is_stored`: the database takes the row of a result.
pub record Engine (F P M : Type 0) : Type 0 where
  pub is_known : ℕ → Bool
  pub kline : Code → Date → Date → List (Bar F)
  pub cerebro : Run F P → Code → List (Bar F) → Result M
  pub is_stored : Outcome M → Bool

abbrev pub min_bars : ℕ
min_bars = 30

abbrev pub is_run : {F P : Type 0} → ℕ → Run F P → Bool
is_run id r = r.run_id == id

abbrev pub is_outcome : {M : Type 0} → ℕ → Outcome M → Bool
is_outcome id o = o.run_id == id

-- The bars that the frame keeps: those with a close.
abbrev pub framed : {F : Type 0} → List (Bar F) → List (Bar F)
framed [] = []
framed (b ∷ bars) = elim b.close [ none ↦ framed bars | some _ ↦ b ∷ framed bars ]

module _ {F P M : Type 0} where
  unfoldable pub get_run : ℕ → Db F P M → Option (Run F P)
  get_run id db = first (is_run id) db.runs

  unfoldable pub get_result : ℕ → Db F P M → Option (Outcome M)
  get_result id db = first (is_outcome id) db.results

  -- The request, with a fresh id.
  unfoldable pub create_backtest_run : Run F P → Flags → Db F P M → Db F P M
  create_backtest_run req flags db = record db {
    runs = db.runs ++ (record req { status = pending; error = none; sample = some flags } ∷ []);
  }

  abbrev pub with_bars : Engine F P M → Run F P → Code → List (Bar F) → Result M
  with_bars engine run c [] = err value_error
  with_bars engine run c (b ∷ bars) =
      let result = engine.cerebro run c (b ∷ bars) in
      if ltb (length (framed (b ∷ bars))) min_bars then err value_error else result

  -- The first stock of the pool only.
  abbrev pub with_pool : Engine F P M → Run F P → List Code → Result M
  with_pool engine run [] = err value_error
  with_pool engine run (c ∷ _) = with_bars engine run c (engine.kline c run.start_date run.end_date)

  unfoldable pub run_backtest : Engine F P M → Run F P → Result M
  run_backtest engine run =
      let result = with_pool engine run run.stock_pool in
      if engine.is_known run.strategy then result else err value_error

  abbrev pub set_run : Run F P → Db F P M → Db F P M
  set_run run db = record db { runs = update (is_run run.run_id) (λ _. run) db.runs }

  -- The tables after the `try`, with what is returned or raised. Where the flush of the result fails,
  -- the commit of the handler raises, since the session was not rolled back, and nothing is written.
  unfoldable pub close_run :
      Engine F P M → Run F P → Db F P M → Result M → Db F P M × Result (Outcome M)
  close_run engine run db (ok metrics) =
      let outcome : Outcome M = record { run_id = run.run_id; metrics = metrics } in
      let db1 = set_run (record run { status = done }) db in
      if engine.is_stored outcome
      then (record db1 { results = db1.results ++ (outcome ∷ []) }, ok outcome)
      else (db, err pending_rollback)
  close_run engine run db (err e) =
      (set_run (record run { status = failed; error = some e }) db, err e)

abbrev pub gate : {F : Type 0} → List Code × Meta F → Result Bool
gate kept = if is_empty kept.0 then err value_error else ok true

module _ {F P : Type 0} ⦃fl : Float F⦄ where
  abbrev pub needs_gate : Run F P → Bool
  needs_gate run =
      let flagged = elim run.sample as (λ _. Bool) [ none ↦ false | some f ↦ is_filtering f ] in
      if is_empty run.stock_pool then false else flagged

  abbrev flags_of : Run F P → Flags
  flags_of run = elim run.sample [
    | none ↦ record { exclude_st = false; exclude_suspended = false; only_tradable = false }
    | some f ↦ f
  ]

  abbrev pub gated : List Status → Run F P → Result Bool
  gated statuses run =
      let judged =
        apply_sample_filters {F = F} statuses run.stock_pool run.start_date (flags_of run)
        >>= gate in
      if needs_gate run then judged else ok true

module _ {F P M : Type 0} ⦃fl : Float F⦄ where
  -- The body of the `try`.
  unfoldable pub attempt : Engine F P M → List Status → Run F P → Result M
  attempt engine statuses run = gated statuses run >>= λ _. run_backtest engine run

  unfoldable pub execute_and_store :
      Engine F P M → Run F P → Db F P M → Db F P M × Result (Outcome M)
  unfolding close_run attempt
  execute_and_store engine run db =
      let started : Run F P = record run { status = running } in
      close_run engine started (set_run started db) (attempt engine db.statuses started)
