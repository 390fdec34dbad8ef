-- ===== src/Kline.antt =====
-- The stores of daily bars and of adjust factors: backend/app/data/validators.py, sync_daily.py and
-- sync_kline.py, with `sa_kline_daily` and `sa_adjust_factor` of backend/app/models/kline.py.
pub mod Rows
pub mod Factors
pub mod Sync
