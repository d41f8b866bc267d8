-- ===== src/Inbox.antt =====
-- The inbox monitor and the scheduler (backend/inbox_monitor.py).
pub mod Monitor
pub mod Submissions
pub mod Batches
pub mod Handled
pub mod Settling
pub mod Returning
mod Examples
