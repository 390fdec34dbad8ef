-- ===== src/Lib.antt =====
-- stock-platform: an A-share research platform. This library models the part of the backend that
-- moves money on paper, the shared layers under it, the bookkeeping of the job pipeline that runs
-- it, and the clients, jobs and gates that feed it with data, and proves what makes them correct.
--
-- The parts, and the files that model them:
--
--   Execution        backend/app/services/execution.py: open prices and tradability of a day, fill
--                    prices, board lots, itemised fees, the fill decision.
--   Cost             backend/app/services/cost_model.py: `CostParams` and `AShareCommission`.
--   Paper            backend/app/services/paper_service.py, paper_analytics.py and the tables of
--                    backend/app/models/paper.py: `paper_tick` as Paper/Tick (the guards and the
--                    segments), Paper/Match (the matching loops), Paper/Orders (the signal pass and
--                    `_create_orders`), Paper/Reads (what is read from the tables), Paper/Tripwire
--                    (`_corporate_action_alerts`), Paper/Analytics (`diff_orders`, `alert_eval`,
--                    `drift_compare`), Paper/Accounts (the administration), Paper/Curve
--                    (`nav_history`) and Paper/Calendar (`rebalance_dates`,
--                    `_qualifies_rebalance`).
--   Backtest         the execution day of `run_mf_backtest` in
--                    backend/app/services/portfolio_backtest_service.py.
--   Pipeline         backend/app/services/pipeline_service.py and backend/app/models/pipeline.py: the
--                    topology (Pipeline/Topology), the run's status (Pipeline/Status), `on_step_start`
--                    (Pipeline/Hooks), `on_step_finish` with its retry and alert (Pipeline/Finish) and
--                    `patrol_missing` (Pipeline/Patrol).
--   Barriers         `triple_barrier` of backend/app/ml/barriers.py.
--   Quality          the verdict on a metric in backend/app/services/quality_service.py, which reads
--                    the number of missing steps from Pipeline/Patrol.
--   Backfill         backend/app/data/history_backfill.py and kline_rebuild.py, one machine under two
--                    policies: the windows of a fetch (Backfill/Windows), the rows and when a stock
--                    is complete (Backfill/State), a visit of one stock (Backfill/Visit), a batch
--                    with its circuit breaker (Backfill/Batch), the seeding and the progress
--                    (Backfill/Seed), the polling job (Backfill/Tick) and its log row
--                    (Backfill/DailyLog: `log_daily_summary` of
--                    backend/app/services/admin_service.py).
--   TradeStatus      backend/app/data/sync_trade_status.py: the limit boards (TradeStatus/Limits) and
--                    the rows of a day (TradeStatus/Compute), which the execution layer reads.
--   Samples          backend/app/services/sample_filters.py.
--   Single           backend/app/services/backtest_service.py: the life of a run and its gates
--                    (Single/Runs) and the tradability map (Single/Trademap).
--   Kline            the stores of daily bars: validation and upserts (Kline/Rows), the chain of adjust
--                    factors (Kline/Factors) and the writes of one stock (Kline/Sync), from
--                    backend/app/data/validators.py, sync_daily.py and sync_kline.py.
--   Sources          backend/app/data/akshare_client.py: the paced requests to Tencent
--                    (Sources/Tencent), the bars of an answer (Sources/Bars) and the chains of
--                    sources (Sources/Chain).
--   Repair           backend/app/data/repair_daily.py: the scans for frozen and misaligned bars
--                    (Repair/Runs), their repair (Repair/Codes) and the refill of missing amounts
--                    (Repair/Gaps).
--   Startup          backend/app/data/backfill.py: the days that are missing at the start of the
--                    process, and their fill.
--   Universe         backend/app/data/sync_pool.py: the daily snapshot of the stock pool.
--   Quota            the token buckets of backend/app/core/ratelimit.py.
--   Admin            the runs of a task in backend/app/services/admin_service.py, which call the hooks
--                    of Pipeline.
--   Factor           the session caches of backend/app/factor/cache.py.
--   Calendar         the standard library's `date` as far as the engine uses it.
--
-- The daily tick reads the latest position snapshot, matches the due orders at today's open through
-- the execution layer, creates the orders of the next day from the targets of a signal day, and
-- writes positions, a NAV row, checks and the account's cash. The backtest's execution day makes
-- the same decisions from the same layer.
--
-- How the code is read. A float is a type with the operations of Float, which are parameters; the
-- record IsIeee names the few facts of IEEE 754 that a proof takes as a hypothesis, and the
-- decimals of Float/Decimals meet them. A Decimal column holds the rounded float. The database is a
-- record of tables, a query a pass over rows in the order of insertion, and a changed row is
-- written back under its id; the factor caches take a table in the order of its key. Stock codes
-- are digit strings of one length, so they are numbers here; share counts are naturals, since the
-- engine only ever stores counts of whole lots or of what it held. An exception is an error of
-- Prelude/Result, so a tick that raises leaves no new database; sessions and commits are modelled
-- in the back-fill only. Dates are ordinals.
--
-- Loops are recursions on their lists. Four loops are on fuel: the skip of a weekend has two
-- rounds, which are enough since two days in a row are on a weekend at most, and the walk back to a
-- Saturday has six, since one of seven days in a row is a Saturday; the walk over the windows of a
-- back-fill has one round for each day, since a round moves on by a day at least. The walk over the
-- days of the startup's gap is on the number of its days.
--
-- The pipeline's hooks are called by the task runner around each task, the paper tick among them: a
-- start upserts the run of the day and the row of the step, and a finish closes the row, computes
-- the run's status from all its rows, and has a failed step retried or alerted. The hooks swallow
-- exceptions, and none arises on rows of the tables' types; keys are constructors, one for each
-- step of the topology; the upserts of MySQL are `put` and `upsert`, and a clock is read once in a
-- hook.
--
-- A back-fill visits stocks that are due, the fewest attempts first, and fetches a stock's bars in
-- windows. The fetch goes to the network and is a parameter, which may raise and may have stored
-- bars before. A row of the session and a committed one are kept apart, since the circuit breaker
-- leaves the loop between a change and its commit. The two jobs share the rows, with `priority` at
-- 1 in the history's. The trade status of a day is computed from the bars and the pool's snapshot,
-- stored by an upsert, and read by the execution layer, the sample filters and the single-stock
-- backtest.
--
-- A fetch of daily bars asks the two hosts of Tencent and then Eastmoney, each where the one before
-- had no rows; the bars go through validation into the stores, and the factor chain is extended. A
-- repair finds bad stretches in `daily_prices` and fetches them again the same way. What a provider
-- answers and when is an argument of the definitions, and so are the pandas median, the messages of
-- an exceeded deadline, and whether the database takes the row of a backtest's result; the retries of the fetchers by a decorator and the pauses between stocks are
-- left out. The keys of the token buckets are numbers.
--
-- Not modelled: the log row of the K-line rebuild's job; backtrader and the
-- metrics of a single-stock run, a parameter here; the panel, the factor values and the scoring of
-- targets, which rest on pandas and enter the signal pass as the parameter Signals; the walk of the
-- backtest over its days and its metrics; the lists that only read the paper accounts;
-- the checks of the patrol, which are SQL aggregates; the web layer, the
-- spot table, the minute bars and the other tables of the data providers, the assistant, and the
-- training of models.
pub mod Prelude
pub mod Float
pub mod Calendar
pub mod Cost
pub mod Execution
pub mod Paper
pub mod Backtest
pub mod Pipeline
pub mod Admin
pub mod Backfill
pub mod TradeStatus
pub mod Samples
pub mod Single
pub mod Factor
pub mod Kline
pub mod Sources
pub mod Barriers
pub mod Quality
pub mod Quota
pub mod Repair
pub mod Startup
pub mod Universe
pub mod Tests
