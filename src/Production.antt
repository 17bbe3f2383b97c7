-- ===== src/Production.antt =====
-- dsprod/tasks.py and dsprod/processes/base.py: what a production consists of, and its numbering.
pub mod Setup
pub mod Numbering
pub mod Inversion
pub mod Groups
pub mod Granularity
pub mod Inputs
pub mod Merging
pub mod Requested
pub mod Requesting
