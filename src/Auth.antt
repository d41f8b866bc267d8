-- ===== src/Auth.antt =====
-- Authentication (backend/auth.py): session tokens, the limit on logins, and the guard of the routes.
pub mod Sessions
pub mod Guard
pub mod Base64
pub mod Tokens
pub mod Logins
mod Examples
