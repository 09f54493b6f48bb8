-- ===== src/Tools/Approvals.antt =====
-- `ApprovalManager` of backend/core/tools/security/approval.py, in the children of this module.
pub mod Types
pub mod Manager
pub mod Waits
pub mod Consistency
pub mod Methods
pub mod Cleanups
pub mod Preservation
pub mod Outcomes
pub mod Decisions
pub mod Nodes
pub mod Grants
pub mod Lasting
