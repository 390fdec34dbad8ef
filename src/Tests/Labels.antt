-- ===== src/Tests/Labels.antt =====
-- The label of a signal and the verdict on a metric, at concrete inputs over `Fixed` decimals.
use stock_platform.Prelude.{
  ℕ, arith, ◌≡◌, ◌≤◌, ◌<◌, ◌+◌, ◌*◌, refl, true, false, none, some, List, [], ◌∷◌, if◌then◌else◌,
}
use stock_platform.Prelude.Result.{ok}
use stock_platform.Float.{Fixed, fixed, fixed_float, divide, ◌<?◌}
use stock_platform.Prelude.Int.{pos}
use stock_platform.Pipeline.Topology.{paper_tick}
use stock_platform.Pipeline.Patrol.{Missing}
use stock_platform.Barriers.{
  Bar, Sample, Touch, scan, default_sizing, triple_barrier, barriers, labelled,
}
use stock_platform.Barriers.Laws.{untouched, stops, scan_lem}
use stock_platform.Quality.{pass, warn, metric_status, step_missing_status}
use stock_platform.Quality.Laws.{severity, metric_status_worse}

-- A price in tenths.
abbrev tenths : ℕ → Fixed
tenths n = pos (n * 1_000_000)

abbrev bar : ℕ → ℕ → ℕ → ℕ → Bar Fixed
bar o h l c = record { opening = tenths o; high = tenths h; low = tenths l; close = tenths c }

-- A quiet day, and a day that reaches the upper barrier of 10.4.
abbrev bars : List (Bar Fixed)
bars = bar 99 100 98 100 ∷ bar 100 101 99 100 ∷ bar 100 105 99 104 ∷ []

abbrev upper : Touch Fixed
upper = record { label = true; exit = tenths 104; day = 2 }

upper_touched : scan bars (tenths 104) (tenths 98) 2 1 ≡ some upper
unfolding scan
upper_touched = refl

scan_lem_example :
    ((1 ≤ 2)
      × (2 < 1 + 2)
      × (untouched bars (tenths 104) (tenths 98) 2 ≡ false)
      × (true ≡ (if stops bars (tenths 98) 2 then false else true)))
    × ((day : ℕ) → 1 ≤ day → day < 2 → untouched bars (tenths 104) (tenths 98) day ≡ true)
scan_lem_example = scan_lem bars (tenths 104) (tenths 98) 2 1 {touch = upper} upper_touched

sample : (s : Sample Fixed) × (triple_barrier bars 0 default_sizing ≡ ok (some s))
unfolding triple_barrier labelled barriers scan divide
sample = (
  record {
    t0 = 0;
    t1 = 1;
    t_end = 2;
    label = true;
    entry = fixed 10;
    exit = tenths 104;
    ret = pos 385000;
    hold = pos 1;
  },
  refl,
)

lt_trans : (a b c : Fixed) → (a <? b) ≡ true → (b <? c) ≡ true → (a <? c) ≡ true
lt_trans a b c h k = ground arith

metric_status_worse_example :
    (severity (metric_status (some (fixed 1)) false none (fixed 1) false)
      ≤ severity (metric_status (some (fixed 2)) false none (fixed 1) false))
    × (severity (metric_status (some (fixed 2)) false none (fixed 1) false) ≤ 2)
    × (metric_status {F = Fixed} none false none (fixed 1) false ≡ ok warn)
metric_status_worse_example =
    metric_status_worse lt_trans (fixed 1) (fixed 2) false false none (fixed 1) false refl

abbrev tick_missing : List Missing
tick_missing = record { date = 739868; step = paper_tick; status = none } ∷ []

-- The seeded limit of 1 lets one missing step pass.
one_missing_passes :
    step_missing_status {F = Fixed} (some (none, fixed 1)) (some tick_missing) ≡ some (ok pass)
unfolding step_missing_status metric_status
one_missing_passes = refl
