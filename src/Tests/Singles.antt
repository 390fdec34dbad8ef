-- ===== src/Tests/Singles.antt =====
-- The sample filters and a single-stock run, at concrete inputs over `Fixed` decimals.
use stock_platform.Prelude.{
  ℕ, zero, suc, ◌+◌, ◌-◌, ◌≡◌, refl, true, false, Option, none, some, List, [], ◌∷◌,
}
use stock_platform.Prelude.Dict.{lookup}
use stock_platform.Prelude.Result.{Result, ok}
use stock_platform.Prelude.Int.{pos}
use stock_platform.Float.{Fixed, fixed, fixed_float, divide}
use stock_platform.Execution.{Code, TradeStatus, fetch_tradability}
use stock_platform.TradeStatus.Limits.{unlimited}
use stock_platform.TradeStatus.Compute.{Status}
use stock_platform.TradeStatus.Compute.{Bar as PriceBar}
use stock_platform.Samples.{Flags, Meta, apply_sample_filters}
use stock_platform.Single.Trademap.{Bar, build_trademap}
use stock_platform.Single.Trademap.Agreement.{build_trademap-fetch_tradability}
use stock_platform.Single.Runs.{
  Run, Outcome, Db, Engine, pending, running, get_run, get_result, run_backtest, attempt,
  execute_and_store,
}
use stock_platform.Single.Runs.Life.{Ends, execute_and_store-Ends}
use stock_platform.Factor.Cache.{Row, prefetch, per_code_rows, rows_for, latest_le}
use stock_platform.Factor.Cache.Prefetch.{prefetch-latest_le}
use stock_platform.Prelude.{arith}
use stock_platform.Tests.Data.{today}

abbrev status : Code → Option ℕ → Status
status c st = record {
  stock_code = c;
  trade_date = today;
  is_st = st;
  is_suspended = 0;
  limit_status = unlimited;
  buy_tradable = 1;
  sell_tradable = 0;
}

-- 600519 is under special treatment, 600000 is not, and 600036 has no row.
abbrev statuses : List Status
statuses = status 600519 (some 1) ∷ status 600000 (some 0) ∷ []

abbrev pool : List Code
pool = 600519 ∷ 600000 ∷ 600036 ∷ []

abbrev no_st : Flags
no_st = record { exclude_st = true; exclude_suspended = false; only_tradable = false }

abbrev allowances : List TradeStatus
allowances =
    record { stock_code = 600000; trade_date = today; buy_tradable = 1; sell_tradable = 0 } ∷ []

abbrev bar : ℕ → Bar Fixed
bar d = record { trade_date = d; volume = some (fixed 0); pct_change = none }

build_trademap-fetch_tradability_example :
    lookup today (build_trademap allowances 600000 (bar (today - 1) ∷ bar today ∷ []))
    ≡ some (record { buy = true; sell = false })
unfolding fetch_tradability
build_trademap-fetch_tradability_example =
    build_trademap-fetch_tradability allowances 600000 (bar (today - 1)) (bar today ∷ []) today refl
      refl refl refl

-- Thirty bars for any stock.
abbrev price_bar : ℕ → Code → PriceBar Fixed
price_bar n c = record {
  stock_code = c;
  trade_date = today + n;
  opening = some (fixed 10);
  close = some (fixed 10);
  high = some (fixed 10);
  low = some (fixed 10);
}

abbrev price_bars : ℕ → Code → List (PriceBar Fixed)
price_bars zero c = []
price_bars (suc n) c = price_bar n c ∷ price_bars n c

-- The pool starts with the excluded stock, and the engine's metric is the stock that it is run on.
abbrev run : Run Fixed ℕ
run = record {
  run_id = 7;
  user_id = none;
  strategy = 1;
  params = 0;
  benchmark = none;
  sample = some no_st;
  stock_pool = pool;
  start_date = today;
  end_date = today + 100;
  initial_cash = fixed 100000;
  status = pending;
  error = none;
}

abbrev engine : Engine Fixed ℕ ℕ
engine = record {
  is_known = λ _. true;
  kline = λ c _ _. price_bars 30 c;
  cerebro = λ _ c _. ok c;
  is_stored = λ _. true;
}

abbrev db : Db Fixed ℕ ℕ
db = record { runs = run ∷ []; results = []; statuses = statuses }

executed : (v : Db Fixed ℕ ℕ × Result (Outcome ℕ)) × (execute_and_store engine run db ≡ v)
executed = (execute_and_store engine run db, refl)

execute_and_store-Ends_example :
    Ends engine run
      (attempt engine statuses (record run { status = running }))
      executed.0.0
      executed.0.1
unfolding get_run get_result
execute_and_store-Ends_example =
    execute_and_store-Ends engine run db executed.0.0 {result = executed.0.1} refl refl executed.1

abbrev meta : Meta Fixed
meta = record {
  coverage = some (pos 6_666_666);
  excluded = some (record { st = 1; suspended = 0; untradable = 0; no_status = 1 });
}

-- The excluded stock is the one that is run.
excluded_run : attempt engine statuses run ≡ ok 600519
unfolding attempt run_backtest apply_sample_filters divide
excluded_run = refl

-- Two reports of one stock and one of another, and a cache warmed up to the second day.
abbrev reports : List (Row ℕ)
reports =
    record { stock_code = 600000; date = 1; value = 5 }
    ∷ record { stock_code = 600000; date = 9; value = 6 }
    ∷ record { stock_code = 600519; date = 2; value = 7 }
    ∷ []

prefetch-latest_le_example :
    let warmed = prefetch reports (600519 ∷ 600000 ∷ []) 4 [] in
    let (rows, cache) = per_code_rows (rows_for reports) 600000 warmed in
    (latest_le rows 3 ≡ latest_le (rows_for reports 600000) 3) × (cache ≡ warmed)
prefetch-latest_le_example =
    prefetch-latest_le reports (600519 ∷ 600000 ∷ []) 4 [] 600000 3 refl refl (omega arith)
