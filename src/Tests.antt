-- ===== src/Tests.antt =====
-- Examples of the theorems at concrete inputs, and runs of the definitions.
mod Sites
mod Stalls
mod Retries
mod Merges
mod Polls
mod Setups
mod Storage
mod Repairs
mod Steps
mod Grid
