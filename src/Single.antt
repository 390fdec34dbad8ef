-- ===== src/Single.antt =====
-- The single-stock backtest around backtrader, which is a parameter:
-- backend/app/services/backtest_service.py and backend/app/models/backtest.py.
pub mod Trademap
pub mod Runs
