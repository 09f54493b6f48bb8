-- ===== src/Examples.antt =====
-- Concrete inputs: the theorems at work, and runs of the definitions.
mod Runs
mod Chat
mod Tools
mod Approvals
mod Permissions
mod Notifications
mod Server
mod Tasks
mod Plans
