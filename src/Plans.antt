-- ===== src/Plans.antt =====
-- The planning mode of a conversation: its plans and the questions and approvals that they wait for.
pub mod Types
pub mod Table
pub mod Ledger
pub mod Single
pub mod Calls
pub mod Sequence
