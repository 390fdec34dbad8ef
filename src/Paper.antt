-- ===== src/Paper.antt =====
-- The paper-trading engine: backend/app/services/paper_service.py.
mod Tables
pub mod Match
pub mod Solvency
pub mod Calendar
pub mod Analytics
pub mod Reads
pub mod Tripwire
pub mod Orders
pub mod Tick
pub mod ExDay
pub mod Daily
pub mod Accounts
pub mod Curve
pub mod Rows
pub mod Resolution
pub use Tables.*
