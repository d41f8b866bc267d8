-- ===== src/Clusters/Examples.antt =====
-- Runs of `_transitive_clusters` (backend/grooming.py).
use paperless_iq.Prelude.{ℕ, ◌≡◌, refl, some, List, [], ◌∷◌, arith, nat_eq, string_eq}
use paperless_iq.Prelude.Dict.{get, put}
use paperless_iq.Clusters.UnionFind.{
  parent_of, find, union, union_all, insert_id, sorted_ids, add_member, group, transitive_clusters,
}
use paperless_iq.Clusters.Partition.{Clustered, transitive_clusters_lem}

-- Two chains of similar tags that the last pair joins, and a pair apart.
abbrev tag_pairs : List (ℕ × ℕ)
tag_pairs = (1, 2) ∷ (3, 4) ∷ (7, 9) ∷ (5, 4) ∷ (2, 5) ∷ []

tag_clusters : transitive_clusters 6 tag_pairs ≡ some ((1 ∷ 2 ∷ 3 ∷ 4 ∷ 5 ∷ []) ∷ (7 ∷ 9 ∷ []) ∷ [])
unfolding transitive_clusters union_all group sorted_ids insert_id add_member union find parent_of
    get put
tag_clusters = refl

transitive_clusters_lem_example :
    (cs : List (List ℕ)) × (transitive_clusters 6 tag_pairs ≡ some cs) × Clustered tag_pairs cs
transitive_clusters_lem_example = transitive_clusters_lem 6 tag_pairs (omega arith)
