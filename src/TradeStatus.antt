-- ===== src/TradeStatus.antt =====
-- The daily trade status of each stock: backend/app/data/sync_trade_status.py.
pub mod Limits
pub mod Compute
pub mod Upserts
pub mod Coverage
pub mod Suspension
