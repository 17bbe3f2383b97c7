-- ===== src/Storage.antt =====
-- dsprod/grid_tools.py and dsprod/law_gfal.py: what the storage is asked, and what is remembered of it.
pub mod Paths
pub mod Listing
pub mod Cache
pub mod Interface
pub mod Soundness
pub mod Existence
pub mod Preservation
pub mod Listed
pub mod Retries
pub mod Copy
pub mod Intact
