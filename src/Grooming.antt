-- ===== src/Grooming.antt =====
-- Library grooming (backend/grooming.py): the classification of entity and document pairs, the
-- memory of dismissals, and the selection and correction behind the suggestions of a scan.
pub mod Floats
pub mod Classify
pub mod Justified
pub mod Rules
pub mod Exact
pub mod Dismissals
pub mod Memory
pub mod Selection
pub mod Corrections
pub mod TagCorrections
mod Examples
