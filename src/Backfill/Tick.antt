-- ===== src/Backfill/Tick.antt =====
-- The scheduler's entry: `tick` of backend/app/data/history_backfill.py.
use stock_platform.Prelude.{ℕ, Bool, if◌then◌else◌, [], count}
use stock_platform.Prelude.Result.{Result, ok, err}
use stock_platform.Float.{Float}
use stock_platform.Calendar.{Date}
use stock_platform.Backfill.Windows.{in_quiet_window}
use stock_platform.Backfill.State.{Bars}
use stock_platform.Backfill.Visit.{Fetch, history_policy}
use stock_platform.Backfill.Batch.{Batch, run_batch, is_due}
use stock_platform.Backfill.Seed.{Table, Pool, ensure_state}

-- The summary of a tick: skipped, broken, or what the batch counted.
pub data Summary : Type 0 where
  disabled quiet_window tick_failed : Summary
  batch : (synced rows done failed remaining : ℕ) → Summary

pub record Settings : Type 0 where
  pub history_backfill_enabled : Bool
  pub history_years : ℕ
  pub history_batch_size : ℕ

abbrev pub summary_of : Batch → Summary
summary_of b = batch b.synced b.rows_total b.done b.failed (count is_due b.rows)

module _ (F : Type 0) ⦃fl : Float F⦄ where
  -- The batch on the seeded table. What it commits is what stays.
  unfoldable pub seeded_tick :
      Settings → Fetch → Date → Bars → Table → Result (Table × ℕ) → Table × Bars × Summary
  seeded_tick s fetch today bars t (err e) = (t, bars, tick_failed)
  seeded_tick s fetch today bars t (ok (t1, n)) =
      let b = run_batch F history_policy fetch today s.history_batch_size t1.rows bars in
      (record t1 { rows = b.saved }, b.bars, summary_of b)

  unfoldable pub tick :
      Settings → Fetch → Date → (hour minute : ℕ) → Pool → Bars → Table → Table × Bars × Summary
  tick s fetch today hour minute pool bars t =
      let seeded = ensure_state F s.history_years today bars [] pool t in
      let run = seeded_tick s fetch today bars t seeded in
      if s.history_backfill_enabled
      then (if in_quiet_window hour minute then (t, bars, quiet_window) else run)
      else (t, bars, disabled)
