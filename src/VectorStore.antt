-- ===== src/VectorStore.antt =====
-- The vector store (backend/vector_store.py): the cutting of texts into chunks and the assembly of
-- search results.
pub mod Chunks
pub mod Reassembly
pub mod Packing
pub mod Sentences
pub mod Results
pub mod Sorting
pub mod Collecting
pub mod Entries
pub mod Selecting
pub mod Ranking
pub mod Search
mod Examples
