-- ===== src/Requests.antt =====
-- dsprod/crab.py: what `crab_job_config` asks of CRAB for a job.
pub mod Resources
pub mod Memory
pub mod Sites
pub mod Cric
pub mod JobFile
