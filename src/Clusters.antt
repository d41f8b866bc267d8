-- ===== src/Clusters.antt =====
-- The clusters of similar entities: _transitive_clusters (backend/grooming.py).
pub mod UnionFind
pub mod Forest
pub mod Linked
pub mod Merging
pub mod Grouping
pub mod Partition
mod Examples
