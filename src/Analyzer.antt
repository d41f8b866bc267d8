-- ===== src/Analyzer.antt =====
-- The document analyzer (backend/analyzer.py): prompt templates, the creation policies applied to
-- what the model suggests, and what becomes of its select values at approval.
pub mod Prompts
pub mod Policy
pub mod Known
pub mod Policed
pub mod OptionLabels
pub mod SelectValues
mod Examples
