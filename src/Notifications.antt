-- ===== src/Notifications.antt =====
-- `TaskNotificationService` of backend/core/notifications/task_notifications.py, in the children of this
-- module.
pub mod Types
pub mod Delivery
pub mod Creation
pub mod Moves
pub mod Calls
pub mod Ends
pub mod Progress
