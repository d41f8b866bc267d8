-- ===== src/Rerankers.antt =====
-- The rerankers (backend/rerankers.py), and the search that uses them (backend/vector_store.py).
pub mod Scores
pub mod Build
pub mod Reranked
pub mod Keys
mod Examples
