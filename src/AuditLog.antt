-- ===== src/AuditLog.antt =====
-- The audit log (backend/audit_log.py).
pub mod Service
pub mod Cleanup
mod Examples
