-- ===== src/Backfill/Batch/Settled.antt =====
-- What becomes of the rows of a back-fill, over the ticks of the polling job (`run_history_batch`).
use stock_platform.Prelude.{
  ℕ, ◌≤◌, ◌≡◌, refl, ◌∙◌, subst, arith, Bool, true, false, leb, ltb, Option, none, some, List, [],
  ◌∷◌, first, count, length, All, Bool-cases, inl, inr,
}
use stock_platform.Prelude.Rows.{update}
use stock_platform.Float.{Float}
use stock_platform.Calendar.{Date}
use stock_platform.Backfill.State.{Row, Bars, pending, done, failed, max_attempts}
use stock_platform.Backfill.Visit.{Policy, Fetch, visit}
use stock_platform.Backfill.Batch.{
  Batch, has_id, is_due, commit, visited, tripped, next_round, round, run_loop, run_batch, opening,
  next_pending,
}
use stock_platform.Backfill.Batch.Steps.{Pass, completes, retries, parks, visit-Passes}
use stock_platform.Backfill.Batch.Selection.{OneId, count-first-some}
use stock_platform.Backfill.Batch.Drain.{passes, run_ticks, run_ticks-due}

-- A row is parked exactly if its attempts are used up.
abbrev pub is_kept : Row → Bool
is_kept r = elim r.status [
  | pending ↦ ltb r.attempts max_attempts
  | done ↦ true
  | failed ↦ leb max_attempts r.attempts
]

-- A row is done with: complete, or parked after its last attempt.
abbrev pub is_settled : Row → Bool
is_settled r = elim r.status [
  | pending ↦ false
  | done ↦ true
  | failed ↦ leb max_attempts r.attempts
]

abbrev pub AreKept : List Row → Type 0
AreKept = All (λ (r : Row). is_kept r ≡ true)

abbrev pub AreSettled : List Row → Type 0
AreSettled = All (λ (r : Row). is_settled r ≡ true)

abbrev pub row_ids : List Row → List ℕ
row_ids [] = []
row_ids (r ∷ rows) = r.id ∷ row_ids rows

Pass-is_kept : {r s : Row} → Pass r s → is_kept r ≡ true → is_kept s ≡ true
Pass-is_kept (completes p q) h = ground arith
Pass-is_kept (retries p q lt) h = ground arith
Pass-is_kept (parks p q le) h = ground arith

first-AreKept :
    (id : ℕ) (rows : List Row) {r : Row}
    → first (has_id id) rows ≡ some r
    → AreKept rows
    → is_kept r ≡ true
first-AreKept id [] e h = cc
first-AreKept id (x ∷ rows) {r = r} e (k, h) = elim (Bool-cases (has_id id x)) [
  | inl p ↦ let same : x ≡ r = ground arith in subst (λ (y : Row). is_kept y ≡ true) same k
  | inr p ↦ first-AreKept id rows {r = r} (ground arith) h
]

update-AreKept :
    (id : ℕ) (s : Row) (rows : List Row)
    → is_kept s ≡ true
    → AreKept rows
    → AreKept (update (has_id id) (λ _. s) rows)
update-AreKept id s [] k h = tt
update-AreKept id s (x ∷ rows) k (e, h) = elim (Bool-cases (has_id id x)) [
  | inl p ↦ rw p (k, update-AreKept id s rows k h)
  | inr p ↦ rw p (e, update-AreKept id s rows k h)
]

row_ids-update :
    (id : ℕ) (s : Row) (rows : List Row)
    → s.id ≡ id
    → row_ids (update (has_id id) (λ _. s) rows) ≡ row_ids rows
row_ids-update id s [] e = refl
row_ids-update id s (x ∷ rows) e = ground (arith, row_ids-update id s rows e)

-- The same rows in the same order, each kept.
abbrev Same : List ℕ → List Row → Type 0
Same ids rows = (row_ids rows ≡ ids) × AreKept rows

module _ (F : Type 0) ⦃fl : Float F⦄ (policy : Policy) where
  visited-Same :
      (fetch : Fetch) (today : Date) (id : ℕ) (r : Row) (b : Batch) (ids : List ℕ)
      → first (has_id id) b.rows ≡ some r
      → Same ids b.rows
      → Same ids (visited F policy fetch today id r b).rows
  visited-Same fetch today id r b ids e (same, h) =
      let s = (visit F policy fetch today r b.bars).1.row in
      let (pass, (sid, _, _, _)) = visit-Passes F policy fetch today r b.bars in
      let (own, _) = count-first-some (has_id id) b.rows e in
      let here : s.id ≡ id = ground (arith, sid, own) in
      let k = Pass-is_kept pass (first-AreKept id b.rows {r = r} e h) in
      (row_ids-update id s b.rows here ∙ same, update-AreKept id s b.rows k h)

  next_round-Same :
      (rest : Batch → Batch) (stop : Bool) (ids : List ℕ) (b : Batch)
      → Same ids b.rows
      → Same ids b.saved
      → Same ids (rest (commit b)).saved
      → Same ids (next_round F policy rest stop b).saved
  next_round-Same rest true ids b same saved ih = elim (Bool-cases policy.commits_last) [
    | inl e ↦ rw e same
    | inr e ↦ rw e saved
  ]
  next_round-Same rest false ids b same saved ih = ih

  round-Same :
      (rest : Batch → Batch) (fetch : Fetch) (today : Date) (id : ℕ) (b : Batch) (ids : List ℕ)
      (found : Option Row)
      → first (has_id id) b.rows ≡ found
      → Same ids b.rows
      → Same ids b.saved
      → ((b1 : Batch) → Same ids b1.rows → Same ids b1.saved → Same ids (rest b1).saved)
      → Same ids (round F policy rest fetch today id b found).saved
  unfolding round
  round-Same rest fetch today id b ids none e same saved ih = ih b same saved
  round-Same rest fetch today id b ids (some r) e same saved ih =
      let b1 = visited F policy fetch today id r b in
      let v = (visit F policy fetch today r b.bars).1 in
      let now = visited-Same fetch today id r b ids e same in
      next_round-Same rest (tripped F policy v b1) ids b1 now saved (ih (commit b1) now now)

  run_loop-Same :
      (fetch : Fetch) (today : Date) (todo : List ℕ) (b : Batch) (ids : List ℕ)
      → Same ids b.rows
      → Same ids b.saved
      → Same ids (run_loop F policy fetch today todo b).saved
  unfolding run_loop
  run_loop-Same fetch today [] b ids same saved = saved
  run_loop-Same fetch today (id ∷ todo) b ids same saved =
      round-Same (run_loop F policy fetch today todo) fetch today id b ids
        (first (has_id id) b.rows) refl same saved (λ b1. run_loop-Same fetch today todo b1 ids)

  run_ticks-Same :
      (ticks : List (Fetch × Date)) (limit : ℕ) (rows : List Row) (bars : Bars) (ids : List ℕ)
      → Same ids rows
      → Same ids (run_ticks F policy limit ticks rows bars)
  unfolding run_batch
  run_ticks-Same [] limit rows bars ids same = same
  run_ticks-Same ((fetch, today) ∷ ticks) limit rows bars ids same =
      let b = run_batch F policy fetch today limit rows bars in
      run_ticks-Same ticks limit b.saved b.bars ids
        (run_loop-Same fetch today (next_pending limit rows) (opening rows bars) ids same same)

  none_due-AreSettled : (rows : List Row) → AreKept rows → count is_due rows ≡ 0 → AreSettled rows
  none_due-AreSettled [] h e = tt
  none_due-AreSettled (r ∷ rows) (k, h) e =
      (ground arith, none_due-AreSettled rows h (ground arith))

  -- From rows of which each has an id of its own and is parked exactly if it has used up its attempts:
  -- whatever the sources do and the breaker cuts off, after as many ticks of at least one stock as
  -- passes are left, the same rows are there in the same order, and each is complete, or parked as
  -- failed with all its attempts used up; none is pending.
  pub run_ticks-settles :
      (ticks : List (Fetch × Date)) (limit : ℕ) (rows : List Row) (bars : Bars)
      → OneId rows
      → AreKept rows
      → 1 ≤ limit
      → passes rows ≤ length ticks
      → let rows' = run_ticks F policy limit ticks rows bars in
        (row_ids rows' ≡ row_ids rows) × AreSettled rows'
  run_ticks-settles ticks limit rows bars one kept h le =
      let (same, still) = run_ticks-Same ticks limit rows bars (row_ids rows) (refl, kept) in
      (
        same,
        none_due-AreSettled (run_ticks F policy limit ticks rows bars) still
            (run_ticks-due F policy ticks limit rows bars one h le),
      )
