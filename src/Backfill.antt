-- ===== src/Backfill.antt =====
-- The polled back-fills of daily bars: backend/app/data/history_backfill.py and
-- backend/app/data/kline_rebuild.py, with their state tables in backend/app/models/.
pub mod Windows
pub mod State
pub mod Visit
pub mod Batch
pub mod Seed
pub mod Tick
pub mod DailyLog
