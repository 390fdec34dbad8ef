-- ===== src/Backfill/Batch/Drain.antt =====
-- Laws of a batch and of the ticks of the polling job, by the passes left (`run_history_batch`).
use stock_platform.Prelude.{
  ℕ, ◌+◌, ◌≤◌, ◌<◌, ◌≡◌, refl, sym, subst, arith, Bool, true, false, Option, none, some, List, [],
  ◌∷◌, first, count, length, Bool-cases, inl, inr,
}
use stock_platform.Prelude.Rows.{update}
use stock_platform.Float.{Float}
use stock_platform.Calendar.{Date}
use stock_platform.Backfill.State.{Row, Bars}
use stock_platform.Backfill.Visit.{Policy, Fetch, visit}
use stock_platform.Backfill.Batch.{
  Batch, has_id, is_due, commit, visited, tripped, next_round, round, run_loop, run_batch, opening,
  next_pending,
}
use stock_platform.Backfill.Batch.Steps.{passes_left, visit-Passes, Pass-passes_left}
use stock_platform.Backfill.Batch.Selection.{
  OneId, Selected, chosen, next_pending-Selected, count-first-some,
}

-- The passes that the rows may still need, all together.
abbrev pub passes : List Row → ℕ
passes [] = 0
passes (r ∷ rows) = passes_left r + passes rows

none_due : (rows : List Row) → passes rows ≡ 0 → count is_due rows ≡ 0
none_due [] h = refl
none_due (r ∷ rows) h = ground (arith, none_due rows)

no_passes : (rows : List Row) → count is_due rows ≡ 0 → passes rows ≡ 0
no_passes [] h = refl
no_passes (r ∷ rows) h = ground (arith, no_passes rows)

update-none :
    (id : ℕ) (f : Row → Row) (rows : List Row)
    → count (has_id id) rows ≡ 0
    → update (has_id id) f rows ≡ rows
update-none id f [] h = refl
update-none id f (r ∷ rows) h = ground (arith, update-none id f rows)

passes-update :
    (id : ℕ) (s : Row) (rows : List Row) {r : Row}
    → count (has_id id) rows ≤ 1
    → first (has_id id) rows ≡ some r
    → passes (update (has_id id) (λ _. s) rows) + passes_left r ≡ passes rows + passes_left s
passes-update id s [] h e = cc
passes-update id s (x ∷ rows) {r = r} h e =
    ground (arith, passes-update id s rows {r = r}, update-none id (λ (_ : Row). s) rows)

count-update :
    (id id' : ℕ) (s : Row) (rows : List Row)
    → s.id ≡ id
    → count (has_id id') (update (has_id id) (λ _. s) rows) ≡ count (has_id id') rows
count-update id id' s [] h = refl
count-update id id' s (r ∷ rows) h = ground (arith, count-update id id' s rows)

module _ (F : Type 0) ⦃fl : Float F⦄ (policy : Policy) where
  visited-rows :
      (fetch : Fetch) (today : Date) (id : ℕ) (r : Row) (b : Batch)
      → OneId b.rows
      → first (has_id id) b.rows ≡ some r
      → OneId (visited F policy fetch today id r b).rows
        × (passes (visited F policy fetch today id r b).rows ≤ passes b.rows)
        × (is_due r ≡ true → passes (visited F policy fetch today id r b).rows < passes b.rows)
  visited-rows fetch today id r b one e =
      let s = (visit F policy fetch today r b.bars).1.row in
      let (pass, (same, _, _, _)) = visit-Passes F policy fetch today r b.bars in
      let (le, lt) = Pass-passes_left pass in
      let (h, _) = count-first-some (has_id id) b.rows e in
      let u = passes-update id s b.rows (one id) e in
      (
        λ id'. ground (arith, count-update id id' s b.rows, one id', same, h),
        ground (arith, u, le),
        λ d. let lt' = lt d in ground (arith, u, lt'),
      )

  -- What the loop leaves committed.
  abbrev Drained : ℕ → Batch → Type 0
  Drained bound b = OneId b.saved × (passes b.saved ≤ bound)

  next_round-Drained :
      (rest : Batch → Batch) (stop : Bool) (bound : ℕ) (b : Batch)
      → OneId b.rows
      → OneId b.saved
      → passes b.rows ≤ bound
      → passes b.saved ≤ bound
      → Drained (passes b.rows) (rest (commit b))
      → Drained bound (next_round F policy rest stop b)
  next_round-Drained rest true bound b one one' le le' ih = elim (Bool-cases policy.commits_last) [
    | inl e ↦ rw e (one, le)
    | inr e ↦ rw e (one', le')
  ]
  next_round-Drained rest false bound b one one' le le' (o, p) = (o, omega arith)

  round-Drained :
      (rest : Batch → Batch) (fetch : Fetch) (today : Date) (id : ℕ) (b : Batch)
      (found : Option Row)
      → first (has_id id) b.rows ≡ found
      → OneId b.rows
      → b.saved ≡ b.rows
      → ((b1 : Batch) → OneId b1.rows → b1.saved ≡ b1.rows → Drained (passes b1.rows) (rest b1))
      → Drained (passes b.rows) (round F policy rest fetch today id b found)
  unfolding round
  round-Drained rest fetch today id b none e one same ih = ih b one same
  round-Drained rest fetch today id b (some r) e one same ih =
      let (one1, le, _) = visited-rows fetch today id r b one e in
      let b1 = visited F policy fetch today id r b in
      let v = (visit F policy fetch today r b.bars).1 in
      next_round-Drained rest (tripped F policy v b1) (passes b.rows) b1 one1
        (subst OneId (sym same) one) le
        (subst (λ rows. passes rows ≤ passes b.rows) (sym same) (omega arith))
        (ih (commit b1) one1 refl)

  run_loop-Drained :
      (fetch : Fetch) (today : Date) (ids : List ℕ) (b : Batch)
      → OneId b.rows
      → b.saved ≡ b.rows
      → Drained (passes b.rows) (run_loop F policy fetch today ids b)
  unfolding run_loop
  run_loop-Drained fetch today [] b one same = (
    subst OneId (sym same) one,
    subst (λ rows. passes rows ≤ passes b.rows) (sym same) (omega arith),
  )
  run_loop-Drained fetch today (id ∷ ids) b one same =
      round-Drained (run_loop F policy fetch today ids) fetch today id b (first (has_id id) b.rows)
        refl one same (run_loop-Drained fetch today ids)

  not-tripped :
      (fetch : Fetch) (today : Date) (id : ℕ) (r : Row) (b : Batch)
      → b.consecutive ≡ 0
      → tripped F policy
          (visit F policy fetch today r b.bars).1
          (visited F policy fetch today id r b)
        ≡ false
  not-tripped fetch today id r b h = ground arith

  -- The first round of a batch takes a pass off, since one error does not trip the breaker.
  Selected-passes :
      (fetch : Fetch) (today : Date) {ids : List ℕ} (b : Batch)
      → Selected b.rows ids
      → OneId b.rows
      → b.consecutive ≡ 0
      → passes (run_loop F policy fetch today ids b).saved < passes b.rows
  unfolding run_loop round
  Selected-passes fetch today b (chosen r ids (due, e)) one h =
      let rest = run_loop F policy fetch today ids in
      let b1 = visited F policy fetch today r.id r b in
      let (one1, _, lt) = visited-rows fetch today r.id r b one e in
      let (_, le) = run_loop-Drained fetch today ids (commit b1) one1 refl in
      let fewer = lt due in
      subst (λ found. passes (round F policy rest fetch today r.id b found).saved < passes b.rows)
        (sym e)
        (subst (λ stop. passes (next_round F policy rest stop b1).saved < passes b.rows)
          (sym (not-tripped fetch today r.id r b h)) (omega arith))

  -- While a row is due, a batch of at least one stock commits a row with a pass less.
  pub run_batch-passes :
      (fetch : Fetch) (today : Date) (limit : ℕ) (rows : List Row) (bars : Bars)
      → OneId rows
      → 1 ≤ limit
      → 0 < count is_due rows
      → passes (run_batch F policy fetch today limit rows bars).saved < passes rows
  unfolding run_batch
  run_batch-passes fetch today limit rows bars one h due =
      Selected-passes fetch today (opening rows bars) (next_pending-Selected rows limit one h due)
        one refl

  pub run_batch-Drained :
      (fetch : Fetch) (today : Date) (limit : ℕ) (rows : List Row) (bars : Bars)
      → OneId rows
      → let saved = (run_batch F policy fetch today limit rows bars).saved in
        OneId saved × (passes saved ≤ passes rows)
  unfolding run_batch
  run_batch-Drained fetch today limit rows bars one =
      run_loop-Drained fetch today (next_pending limit rows) (opening rows bars) one refl

  -- The ticks of the polling job, each with its day and its luck with the sources.
  abbrev pub run_ticks : ℕ → List (Fetch × Date) → List Row → Bars → List Row
  run_ticks limit [] rows bars = rows
  run_ticks limit ((fetch, today) ∷ ticks) rows bars =
      let b = run_batch F policy fetch today limit rows bars in run_ticks limit ticks b.saved b.bars

  -- Whatever the sources do and the breaker cuts off, after as many ticks of at least one stock as
  -- passes are left, no row is due any more.
  pub run_ticks-due :
      (ticks : List (Fetch × Date)) (limit : ℕ) (rows : List Row) (bars : Bars)
      → OneId rows
      → 1 ≤ limit
      → passes rows ≤ length ticks
      → count is_due (run_ticks limit ticks rows bars) ≡ 0
  run_ticks-due [] limit rows bars one h le = none_due rows (omega arith)
  run_ticks-due ((fetch, today) ∷ ticks) limit rows bars one h le =
      let b = run_batch F policy fetch today limit rows bars in
      let (one1, le1) = run_batch-Drained fetch today limit rows bars one in
      let fewer = run_batch-passes fetch today limit rows bars one h in
      run_ticks-due ticks limit b.saved b.bars one1 h (ground (arith, fewer, le1, no_passes rows))
