-- ===== src/Permissions.antt =====
-- The permissions of users (backend/main.py, with their table of backend/orm_models.py).
pub mod Users
pub mod Grants
mod Examples
