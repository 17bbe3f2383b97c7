-- ===== src/SiteStats.antt =====
-- dsprod/site_stats.py: job outcomes per site, and the quarantine of sites that fail.
pub mod Types
pub mod Judgement
pub mod Operations
pub mod Persistence
pub mod Sweep
pub mod Fairness
pub mod Escalation
pub mod Bans
pub mod Validity
pub mod Restart
pub mod Blacklist
