-- ===== src/Settings.antt =====
-- The settings (backend/settings_service.py).
pub mod Store
pub mod Exported
pub mod Imported
mod Examples
