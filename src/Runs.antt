-- ===== src/Runs.antt =====
-- backend/core/runs: the records of runs, and the repository that keeps them in memory.
pub mod Types
pub mod Create
pub mod Update
pub mod Events
pub mod Finish
pub mod Listing
pub mod WellFormed
pub mod Evolution
pub mod Calls
pub mod Idempotency
pub mod Replay
pub mod Finishing
pub mod Listed
pub mod Startup
