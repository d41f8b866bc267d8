-- ===== src/Approval.antt =====
-- backend/approval_queue.py: the approval queue, its write to Paperless NGX, and its proofs.
pub mod Exec
pub mod Py
pub mod Rows
pub mod Entities
pub mod CustomFields
pub mod Patch
pub mod Service
pub mod Operations
pub mod Lookup
pub mod Lifecycle
pub mod History
pub mod Outcomes
pub mod Unique
pub mod Events
pub mod AuditTrail
pub mod AuditHistory
pub mod Policies
pub mod Creation
pub mod Tags
pub mod Cleared
pub mod Repeats
pub mod Listing
pub mod Emptying
mod Examples
