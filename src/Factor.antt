-- ===== src/Factor.antt =====
-- The reads of the factor library: backend/app/factor/cache.py.
pub mod Cache
