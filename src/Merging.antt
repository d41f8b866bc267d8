-- ===== src/Merging.antt =====
-- The merging of entities by GroomingService (backend/grooming.py).
pub mod Documents
pub mod Service
pub mod Steps
pub mod Tags
mod Examples
