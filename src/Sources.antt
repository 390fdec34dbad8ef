-- ===== src/Sources.antt =====
-- The clients of the data providers: backend/app/data/akshare_client.py. What a provider answers is an
-- argument; a time is a number of milliseconds.
pub mod Tencent
pub mod Bars
pub mod Chain
