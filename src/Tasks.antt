-- ===== src/Tasks.antt =====
-- The task of a conversation: an ordered list of steps that runs carry out one after the other.
pub mod Types
pub mod Steps
pub mod Queries
pub mod Changes
pub mod Bindings
pub mod Order
pub mod WellFormed
pub mod Calls
pub mod Stale
pub mod Versions
pub mod Ends
pub mod Release
