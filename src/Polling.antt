-- ===== src/Polling.antt =====
-- dsprod/crab.py: `DSProdCrabJobManager`, which polls the CRAB tasks of a production.
pub mod Types
pub mod Answers
pub mod Harvest
pub mod Rescue
pub mod Query
pub mod Tallying
pub mod Once
pub mod Rescued
pub mod Patience
pub mod Stopping
pub mod Accounts
pub mod Waiting
pub mod Callback
pub mod Spending
pub mod Spacing
