-- ===== src/Steps.antt =====
-- dsprod/run_step.py, and the run of a `RunProd` job in dsprod/tasks.py.
pub mod Params
pub mod Layers
pub mod Counts
pub mod Chain
pub mod Chained
pub mod Job
