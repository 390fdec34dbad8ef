-- ===== src/Backfill/Batch/Steps.antt =====
-- The life of a row, as the steps of a visit of `run_history_batch`.
use stock_platform.Prelude.{
  ℕ, ◌+◌, ◌-◌, ◌≤◌, ◌<◌, ◌≡◌, refl, arith, Bool, true, false, if◌then◌else◌, Option,
}
use stock_platform.Prelude.Result.{Result, ok, err, Error}
use stock_platform.Float.{Float}
use stock_platform.Calendar.{Date}
use stock_platform.Backfill.State.{
  done, failed, Row, Bars, Trouble, incomplete, max_attempts, earliest_bar, bar_count,
}
use stock_platform.Backfill.Batch.{is_due}
use stock_platform.Backfill.Visit.{
  Policy, Fetch, is_pending, missed, broke, visit, judge, sync_stock_history, judged_visit,
  fetched_visit,
}

-- The steps of a row. Nothing else of it changes but the earliest bar and the last error.
pub data Pass (r s : Row) : Type 0 where
  completes : s.status ≡ done → s.attempts ≡ r.attempts → Pass r s
  retries : s.status ≡ r.status → s.attempts ≡ r.attempts + 1 → s.attempts < max_attempts → Pass r s
  parks : s.status ≡ failed → s.attempts ≡ r.attempts + 1 → max_attempts ≤ s.attempts → Pass r s

abbrev pub SameStock : Row → Row → Type 0
SameStock r s =
    (s.id ≡ r.id)
    × (s.stock_code ≡ r.stock_code)
    × (s.target_start ≡ r.target_start)
    × (s.priority ≡ r.priority)

-- The passes that a row may still need.
abbrev pub passes_left : Row → ℕ
passes_left r = if is_pending r.status then max_attempts - r.attempts else 0

abbrev pub Passes : Row → Row → Type 0
Passes r s = Pass r s × SameStock r s

missed-Passes : (trouble : Trouble) (r : Row) → Passes r (missed trouble r)
missed-Passes trouble r = grind (arith, retries, parks)

broke-Passes : (e : Error) (r : Row) → Passes r (broke e r)
broke-Passes e r = grind (arith, retries, parks)

judged_visit-Passes :
    (n : ℕ) (r : Row) (bars : Bars) (judged : Result Bool)
    → Passes r (judged_visit n r bars judged).row
unfolding judged_visit
judged_visit-Passes n r bars (err e) = broke-Passes e r
judged_visit-Passes n r bars (ok true) = (completes refl refl, (refl, refl, refl, refl))
judged_visit-Passes n r bars (ok false) =
    missed-Passes (incomplete (r.attempts + 1) r.earliest_bar (bar_count bars r.stock_code)) r

Passes-earliest :
    (r : Row) (e : Option Date) (s : Row) → Passes (record r { earliest_bar = e }) s → Passes r s
Passes-earliest r e s (completes p q, same) = (completes p q, same)
Passes-earliest r e s (retries p q h, same) = (retries p q h, same)
Passes-earliest r e s (parks p q h, same) = (parks p q h, same)

module _ (F : Type 0) ⦃fl : Float F⦄ (policy : Policy) where
  fetched_visit-Passes :
      (today : Date) (r : Row) (bars : Bars) (fetched : Result ℕ)
      → Passes r (fetched_visit F policy today r bars fetched).row
  unfolding fetched_visit
  fetched_visit-Passes today r bars (err e) = broke-Passes e r
  fetched_visit-Passes today r bars (ok n) =
      let r1 : Row = record r { earliest_bar = earliest_bar bars r.stock_code } in
      Passes-earliest r (earliest_bar bars r.stock_code) _
        (judged_visit-Passes n r1 bars (judge F policy today r1 bars))

  -- A visit, whatever the fetch does, completes the row, or counts an attempt and parks the row as
  -- failed exactly if the attempts are used up; it never leaves the row as it was.
  pub visit-Passes :
      (fetch : Fetch) (today : Date) (r : Row) (bars : Bars)
      → Passes r (visit F policy fetch today r bars).1.row
  unfolding visit
  visit-Passes fetch today r bars =
      let (bars1, fetched) = sync_stock_history fetch r.stock_code r.target_start today bars in
      fetched_visit-Passes today r bars1 fetched

-- A pass of a row that is due takes one off the passes left, and no pass adds one.
pub Pass-passes_left :
    {r s : Row}
    → Pass r s
    → (passes_left s ≤ passes_left r) × (is_due r ≡ true → passes_left s < passes_left r)
Pass-passes_left (completes p q) = ground arith
Pass-passes_left (retries p q h) = ground arith
Pass-passes_left (parks p q h) = ground arith
