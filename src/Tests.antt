-- ===== src/Tests.antt =====
-- The theorems at concrete inputs, over `Fixed` decimals, and runs of the definitions.
mod Data
mod Matching
mod Ticks
mod Pipelines
mod Labels
mod Diff
mod Backfills
mod Singles
mod Klines
mod Repairs
mod Guards
mod Accounts
