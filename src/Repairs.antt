-- ===== src/Repairs.antt =====
-- dsprod/tasks.py, the tasks that keep the records of the produced seeds true to the storage.
pub mod Listings
pub mod Accounts
pub mod Backfill
pub mod Backfilled
pub mod Prune
pub mod Deletions
pub mod Lifecycle
pub mod Rounds
pub mod Ending
pub mod Concurrent
