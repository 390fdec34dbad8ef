-- ===== src/Backfill/Seed/Laws.antt =====
-- Seeding, resetting and the counts.
use stock_platform.Prelude.{
  ℕ, ◌+◌, ◌≡◌, refl, ap, subst, elem, arith, Bool, true, false, ◌||◌, if◌then◌else◌, List, [], ◌∷◌,
  ◌++◌, exists, count, length,
}
use stock_platform.Prelude.Rows.{update}
use stock_platform.Prelude.Result.{ok, >>=-parts}
use stock_platform.Float.{Float}
use stock_platform.Calendar.{Date}
use stock_platform.Execution.{Code}
use stock_platform.Backfill.Windows.{target_start_for}
use stock_platform.Backfill.State.{pending, done, Row, Bars, is_complete, bar_count, earliest_bar}
use stock_platform.Backfill.Visit.{is_pending}
use stock_platform.Backfill.Seed.{
  Table, Pool, has_code, missing, seed_rows, ensure_state, fresh_row, is_failed, is_done, revive,
  reset_failed, progress,
}

-- Every code of a pool has a row.
abbrev pub covered : Pool → List Row → Bool
covered [] rows = true
covered ((c, listed) ∷ pool) rows = if exists (has_code c) rows then covered pool rows else false

missing-covered :
    (pool : Pool) (rows : List Row) → covered pool rows ≡ true → missing pool rows ≡ []
missing-covered [] rows h = refl
missing-covered ((c, listed) ∷ pool) rows h = ground (arith, missing-covered pool rows)

exists-append :
    (p : Row → Bool) (xs ys : List Row) → exists p (xs ++ ys) ≡ (exists p xs || exists p ys)
exists-append p [] ys = refl
exists-append p (x ∷ xs) ys = ground (arith, exists-append p xs ys)

covered-append_missing :
    (pool : Pool) (rows seeded : List Row)
    → covered (missing pool rows) seeded ≡ true
    → covered pool (rows ++ seeded) ≡ true
covered-append_missing [] rows seeded h = refl
covered-append_missing ((c, listed) ∷ pool) rows seeded h =
    ground (arith, covered-append_missing pool rows seeded, exists-append (has_code c) rows seeded)

covered-cons :
    (pool : Pool) (r : Row) (rows : List Row)
    → covered pool rows ≡ true
    → covered pool (r ∷ rows) ≡ true
covered-cons [] r rows h = refl
covered-cons ((c, listed) ∷ pool) r rows h = ground (arith, covered-cons pool r rows)

update_nothing : (f : Row → Row) (rows : List Row) → update (λ (_ : Row). false) f rows ≡ rows
update_nothing f [] = refl
update_nothing f (r ∷ rows) = ap (λ l. r ∷ l) (update_nothing f rows)

append_nil : (rows : List Row) → rows ++ [] ≡ rows
append_nil [] = refl
append_nil (r ∷ rows) = ap (λ l. r ∷ l) (append_nil rows)

ok-inj : {A : Type 0} {a b : A} → ok a ≡ ok b → a ≡ b
ok-inj e = cc

module _ (F : Type 0) ⦃fl : Float F⦄ where
  seed_rows-covered :
      (years : ℕ) (today : Date) (bars : Bars) (urgent : List Code) (id : ℕ) (pool : Pool)
      {seeded : List Row}
      → seed_rows F years today bars urgent id pool ≡ ok seeded
      → covered pool seeded ≡ true
  unfolding seed_rows
  seed_rows-covered years today bars urgent id [] e = refl
  seed_rows-covered years today bars urgent id ((c, listed) ∷ pool) {seeded = seeded} e =
      let target = target_start_for years listed today in
      let stored = earliest_bar bars c in
      let (whole, _, rest) =
        >>=-parts {first = is_complete F target today stored (bar_count bars c)} e in
      let (later, e2, e3) =
        >>=-parts {first = seed_rows F years today bars urgent (id + 1) pool} rest in
      let tail = seed_rows-covered years today bars urgent (id + 1) pool e2 in
      let status = if whole then done else pending in
      let row = fresh_row id c target stored status (if elem c urgent then 0 else 1) in
      subst (λ l. covered ((c, listed) ∷ pool) l ≡ true) (ok-inj e3)
        (ground (arith, covered-cons pool row later tail))

  ensure_state-covered :
      (years : ℕ) (today : Date) (bars : Bars) (pool : Pool) (t : Table)
      → covered pool t.rows ≡ true
      → ensure_state F years today bars [] pool t ≡ ok (t, 0)
  unfolding ensure_state seed_rows
  ensure_state-covered years today bars pool t h =
      let e = missing-covered pool t.rows h in ground (arith, e, append_nil t.rows)

  -- Seeding is idempotent: once it returns, a second run for the same pool inserts no row and leaves
  -- the table as it is, whatever the day and the stored bars are by then.
  pub ensure_state_again :
      (years : ℕ) (today : Date) (bars : Bars) (pool : Pool) (t : Table) {t' : Table} {n : ℕ}
      → ensure_state F years today bars [] pool t ≡ ok (t', n)
      → (later : Date) (bars' : Bars) → ensure_state F years later bars' [] pool t' ≡ ok (t', 0)
  unfolding ensure_state
  ensure_state_again years today bars pool t {t' = t'} {n = n} e later bars' =
      let (seeded, e1, e2) =
        >>=-parts {first = seed_rows F years today bars [] t.next_id (missing pool t.rows)} e in
      let full =
        covered-append_missing pool t.rows seeded
          (seed_rows-covered years today bars [] t.next_id (missing pool t.rows) e1) in
      let same = ap (λ (p : Table × ℕ). p.0.rows) (ok-inj e2) in
      ensure_state-covered years later bars' pool t' (subst (λ l. covered pool l ≡ true) same full)

update-count-none : (rows : List Row) → count is_failed (update is_failed revive rows) ≡ 0
update-count-none [] = refl
update-count-none (r ∷ rows) = ground (arith, update-count-none rows)

progress-length : (rows : List Row) → (progress rows).total ≡ length rows
unfolding progress
progress-length [] = refl
progress-length (r ∷ rows) = ground (arith, progress-length rows)

revived :
    (rows : List Row)
    → count (λ (r : Row). is_pending r.status) (update is_failed revive rows)
      ≡ count (λ (r : Row). is_pending r.status) rows + count is_failed rows
revived [] = refl
revived (r ∷ rows) = ground (arith, revived rows)

done_kept : (rows : List Row) → count is_done (update is_failed revive rows) ≡ count is_done rows
done_kept [] = refl
done_kept (r ∷ rows) = ground (arith, done_kept rows)

-- The counts add up to the rows of the table; and a reset moves every failed row to the pending
-- ones, returns how many these are, and leaves the done ones.
pub reset_failed-progress :
    (rows : List Row)
    → let before = progress rows in
      let after = progress (reset_failed rows).0 in
      (before.total ≡ length rows)
      × (before.total ≡ before.pending + before.done + before.failed)
      × ((reset_failed rows).1 ≡ before.failed)
      × (after.pending ≡ before.pending + before.failed)
      × (after.done ≡ before.done)
      × (after.failed ≡ 0)
unfolding progress reset_failed
reset_failed-progress rows =
    (progress-length rows, refl, refl, revived rows, done_kept rows, update-count-none rows)
