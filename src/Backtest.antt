-- ===== src/Backtest.antt =====
-- The portfolio backtest: backend/app/services/portfolio_backtest_service.py.
pub mod Match
pub mod Outcome
pub mod Sells
pub mod Buys
pub mod Agreement
