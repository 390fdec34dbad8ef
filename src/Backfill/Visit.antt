-- ===== src/Backfill/Visit.antt =====
-- One pass over one stock of a back-fill, as in `run_history_batch` of
-- backend/app/data/history_backfill.py and `run_batch` of backend/app/data/kline_rebuild.py, which
-- differ by a policy. The fetch of bars for one window goes to the network and is a parameter: it
-- may store bars, also where it raises.
use stock_platform.Prelude.{
  ℕ, ◌+◌, ◌&&◌, Bool, true, false, leb, if◌then◌else◌, Option, none, some, List, [], ◌∷◌,
}
use stock_platform.Prelude.Result.{Result, ok, err, Error, ◌>>=◌}
use stock_platform.Float.{Float}
use stock_platform.Calendar.{Date}
use stock_platform.Execution.{Code}
use stock_platform.Backfill.Windows.{Window, chunk_windows, chunk_days}
use stock_platform.Backfill.State.{
  SyncStatus, pending, done, failed, Trouble, raised, incomplete, Row, Bars, earliest_bar,
  bar_count, max_attempts, is_complete, complete_from_own_start,
}

-- `relaxed`: a second pass accepts what is complete from the first bar on. `commits_last`: the tick
-- commits before the circuit breaker leaves the loop.
pub record Policy : Type 0 where
  pub relaxed : Bool
  pub commits_last : Bool

abbrev pub history_policy : Policy
history_policy = record { relaxed = true; commits_last = false }

abbrev pub rebuild_policy : Policy
rebuild_policy = record { relaxed = false; commits_last = true }

abbrev pub Fetch : Type 0
Fetch = Code → Date → Date → Bars → Bars × Result ℕ

abbrev pub circuit_breaker : ℕ
circuit_breaker = 10

abbrev pub is_pending : SyncStatus → Bool
is_pending s = elim s [ pending ↦ true | done ↦ false | failed ↦ false ]

unfoldable pub sync_windows : Fetch → Code → List Window → Bars → Bars × Result ℕ
sync_windows fetch code [] bars = (bars, ok 0)
sync_windows fetch code ((a, b) ∷ windows) bars =
    let (bars1, first_rows) = fetch code a b bars in
    let (bars2, later_rows) = sync_windows fetch code windows bars1 in
    elim first_rows [ err e ↦ (bars1, err e) | ok n ↦ (bars2, do m ← later_rows; ok (n + m)) ]

unfoldable pub sync_stock_history : Fetch → Code → Date → Date → Bars → Bars × Result ℕ
sync_stock_history fetch code start end =
    sync_windows fetch code (chunk_windows start end chunk_days)

-- The row after a pass that did not complete it, and after one that raised.
abbrev pub missed : Trouble → Row → Row
missed trouble r =
    let attempts = r.attempts + 1 in
    if leb max_attempts attempts
    then record r { attempts = attempts; status = failed; last_error = some trouble }
    else record r { attempts = attempts }

abbrev pub broke : Error → Row → Row
broke e r =
    let attempts = r.attempts + 1 in
    record r {
      attempts = attempts;
      status = if leb max_attempts attempts then failed else r.status;
      last_error = some (raised e);
    }

-- One visit of a row in the loop: its new value, the bars written where the fetch returned, whether
-- it is complete, and whether something raised.
pub record Visit : Type 0 where
  pub row : Row
  pub written : Option ℕ
  pub complete : Bool
  pub error : Bool

abbrev pub raise_visit : Option ℕ → Row → Error → Visit
raise_visit n r e = record { row = broke e r; written = n; complete = false; error = true }

-- The visit after the gate, which may raise as well.
unfoldable pub judged_visit : ℕ → Row → Bars → Result Bool → Visit
judged_visit n r bars (err e) = raise_visit (some n) r e
judged_visit n r bars (ok whole) =
    let trouble = incomplete (r.attempts + 1) r.earliest_bar (bar_count bars r.stock_code) in
    record {
      row = if whole then record r { status = done } else missed trouble r;
      written = some n;
      complete = whole;
      error = false;
    }

module _ (F : Type 0) ⦃fl : Float F⦄ (policy : Policy) where
  -- The completion gate.
  unfoldable pub judge : Date → Row → Bars → Result Bool
  judge today r bars =
      let earliest = earliest_bar bars r.stock_code in
      let stored = bar_count bars r.stock_code in
      let own = complete_from_own_start F r.target_start today earliest stored in
      let second = if policy.relaxed && leb 1 r.attempts then own else ok false in
      do
        whole ← is_complete F r.target_start today earliest stored
        if whole then ok true else second

  -- The visit after the fetch.
  unfoldable pub fetched_visit : Date → Row → Bars → Result ℕ → Visit
  fetched_visit today r bars (err e) = raise_visit none r e
  fetched_visit today r bars (ok n) =
      let r1 : Row = record r { earliest_bar = earliest_bar bars r.stock_code } in
      judged_visit n r1 bars (judge today r1 bars)

  unfoldable pub visit : Fetch → Date → Row → Bars → Bars × Visit
  visit fetch today r bars =
      let (bars1, fetched) = sync_stock_history fetch r.stock_code r.target_start today bars in
      (bars1, fetched_visit today r bars1 fetched)
