-- ===== src/Repair.antt =====
-- Detection and repair of bad stretches of daily bars: backend/app/data/repair_daily.py. A label of a
-- frame's index is its position; the dates of one stock are distinct.
pub mod Runs
pub mod Codes
pub mod Gaps
