-- ===== src/Watchdog.antt =====
-- dsprod/watchdog.py: a job that still holds its slot after its payload has stopped.
pub mod Config
pub mod Types
pub mod Listing
pub mod Operations
pub mod Budget
pub mod Evidence
pub mod Verdicts
pub mod Freshness
pub mod Branches
pub mod Charges
pub mod Guards
pub mod Heartbeat
