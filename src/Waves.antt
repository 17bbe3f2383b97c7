-- ===== src/Waves.antt =====
-- dsprod/crab.py: `DSProdCrabWorkflowProxy`, which submits a production in waves.
pub mod Types
pub mod Gate
pub mod Submission
pub mod Parking
pub mod Clock
pub mod Rounds
