-- ===== src/Tools.antt =====
-- The tool system: which tools a model sees, whether a call is allowed, the approvals that it waits for,
-- the capabilities of tools, and the order in which calls are run.
pub mod Capabilities
pub mod Waves
pub mod Matching
pub mod Specs
pub mod Exposure
pub mod Permissions
pub mod Approvals
