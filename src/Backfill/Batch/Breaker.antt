-- ===== src/Backfill/Batch/Breaker.antt =====
-- The round that trips the circuit breaker.
use stock_platform.Prelude.{
  ℕ, ◌+◌, ◌≤◌, ◌≡◌, refl, sym, ap, ◌∙◌, subst, arith, true, if◌then◌else◌, some, List, ◌∷◌, first,
}
use stock_platform.Prelude.Result.{Error, err}
use stock_platform.Prelude.Rows.{update, first-overwrite}
use stock_platform.Float.{Float}
use stock_platform.Calendar.{Date}
use stock_platform.Backfill.State.{Row, raised}
use stock_platform.Backfill.Visit.{
  Policy, Fetch, circuit_breaker, visit, fetched_visit, sync_stock_history, broke, history_policy,
  rebuild_policy,
}
use stock_platform.Backfill.Batch.{
  Batch, has_id, commit, visited, tripped, next_round, round, run_loop,
}
use stock_platform.Backfill.Batch.Selection.{count-first-some}

module _ (F : Type 0) ⦃fl : Float F⦄ where
  cut :
      (policy : Policy) (fetch : Fetch) (today : Date) (id : ℕ) (ids : List ℕ) (b : Batch) {r : Row}
      → first (has_id id) b.rows ≡ some r
      → tripped F policy
          (visit F policy fetch today r b.bars).1
          (visited F policy fetch today id r b)
        ≡ true
      → run_loop F policy fetch today (id ∷ ids) b ≡ (
          let b1 = visited F policy fetch today id r b in
          if policy.commits_last then commit b1 else b1)
  unfolding run_loop round
  cut policy fetch today id ids b {r = r} e h =
      let rest = run_loop F policy fetch today ids in
      let b1 = visited F policy fetch today id r b in
      let result = if policy.commits_last then commit b1 else b1 in
      subst (λ found. round F policy rest fetch today id b found ≡ result) (sym e)
        (subst (λ stop. next_round F policy rest stop b1 ≡ result) (sym h) refl)

  trips :
      (policy : Policy) (fetch : Fetch) (today : Date) (id : ℕ) (b : Batch) (r : Row) {x : Error}
      → circuit_breaker ≤ b.consecutive + 1
      → (sync_stock_history fetch r.stock_code r.target_start today b.bars).1 ≡ err x
      → tripped F policy
          (visit F policy fetch today r b.bars).1
          (visited F policy fetch today id r b)
        ≡ true
  unfolding visit fetched_visit
  trips policy fetch today id b r {x = x} h raises = rw raises (ground (arith, h))

  visit-broke :
      (policy : Policy) (fetch : Fetch) (today : Date) (b : Batch) (r : Row) {x : Error}
      → (sync_stock_history fetch r.stock_code r.target_start today b.bars).1 ≡ err x
      → (visit F policy fetch today r b.bars).1.row ≡ broke x r
  unfolding visit fetched_visit
  visit-broke policy fetch today b r {x = x} raises = rw raises

  -- Where the fetch of a stock raises and this is the tenth error in a row, the history's batch leaves
  -- that stock's committed row as it was, so that the attempt is lost; the rebuild's batch commits the
  -- row with the attempt counted and the error on it.
  pub run_loop_cut :
      (fetch : Fetch) (today : Date) (id : ℕ) (ids : List ℕ) (b : Batch) {r : Row} {x : Error}
      → first (has_id id) b.rows ≡ some r
      → b.saved ≡ b.rows
      → circuit_breaker ≤ b.consecutive + 1
      → (sync_stock_history fetch r.stock_code r.target_start today b.bars).1 ≡ err x
      → (first (has_id id) (run_loop F history_policy fetch today (id ∷ ids) b).saved ≡ some r)
        × ((s : Row) × (first (has_id id) (run_loop F rebuild_policy fetch today (id ∷ ids) b).saved
              ≡ some s)
            × (s.attempts ≡ r.attempts + 1)
            × (s.last_error ≡ some (raised x)))
  run_loop_cut fetch today id ids b {r = r} {x = x} e same h raises =
      let stops = λ (policy : Policy). trips policy fetch today id b r {x = x} h raises in
      let history =
        ap (λ (y : Batch). y.saved)
          (cut history_policy fetch today id ids b e (stops history_policy)) in
      let rebuild =
        ap (λ (y : Batch). y.saved)
          (cut rebuild_policy fetch today id ids b e (stops rebuild_policy)) in
      let broken = visit-broke rebuild_policy fetch today b r {x = x} raises in
      let own : has_id id (broke x r) ≡ true = (count-first-some (has_id id) b.rows e).0 in
      (
        ap (first (has_id id)) (history ∙ same) ∙ e,
        (
          broke x r,
          ap (first (has_id id)) rebuild
              ∙ ap (λ v. first (has_id id) (update (has_id id) (λ _. v) b.rows)) broken
              ∙ first-overwrite (has_id id) (broke x r) b.rows e own,
          refl,
          refl,
        ),
      )
