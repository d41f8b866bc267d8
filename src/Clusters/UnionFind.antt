-- ===== src/Clusters/UnionFind.antt =====
-- `_transitive_clusters` (backend/grooming.py): the union-find with path halving and the grouping of
-- the ids by their roots. The loop of `find` is on fuel; None is running out of it.
use paperless_iq.Prelude.{
  ℕ, zero, suc, Option, none, some, List, [], ◌∷◌, ◌++◌, ltb, if◌then◌else◌, or_else, nat_eq,
  string_eq, ◌==◌,
}
use paperless_iq.Prelude.Dict.{Dict, get, put}

-- `parent.get(x, x)`
unfoldable pub parent_of : Dict ℕ ℕ → ℕ → ℕ
unfolding get
parent_of parent x = or_else (get parent x) x

-- The root, and the parents after the halving.
unfoldable pub find : ℕ → Dict ℕ ℕ → ℕ → Option (ℕ × Dict ℕ ℕ)
unfolding parent_of put
find zero parent x = none
find (suc fuel) parent x =
    let grandparent = parent_of parent (parent_of parent x) in
    let rest = find fuel (put parent x grandparent) grandparent in
    if parent_of parent x == x then some (x, parent) else rest

-- The rest of a function after a `find`.
abbrev pub then_find {ℓ} :
    {B : Type ℓ} → Option (ℕ × Dict ℕ ℕ) → (ℕ → Dict ℕ ℕ → Option B) → Option B
then_find none f = none
then_find (some (r, parent)) f = f r parent

-- `parent[find(x)] = find(y)`: the right-hand side is computed first.
unfoldable pub union : ℕ → Dict ℕ ℕ → ℕ → ℕ → Option (Dict ℕ ℕ)
unfolding find put
union fuel parent x y = then_find (find fuel parent y) λ root_y parent₁.
    then_find (find fuel parent₁ x) λ root_x parent₂. some (put parent₂ root_x root_y)

abbrev pub then_dict {ℓ} : {B : Type ℓ} → Option (Dict ℕ ℕ) → (Dict ℕ ℕ → Option B) → Option B
then_dict none f = none
then_dict (some d) f = f d

-- The loop over the pairs.
unfoldable pub union_all : ℕ → List (ℕ × ℕ) → Dict ℕ ℕ → Option (Dict ℕ ℕ)
unfolding union
union_all fuel [] parent = some parent
union_all fuel ((a, b) ∷ pairs) parent = then_dict (union fuel parent a b) (union_all fuel pairs)

-- `sorted(all_ids)` of the set of the ids in the pairs.
unfoldable pub insert_id : ℕ → List ℕ → List ℕ
insert_id x [] = x ∷ []
insert_id x (y ∷ ys) =
    let rest = insert_id x ys in if x == y then y ∷ ys else if ltb x y then x ∷ y ∷ ys else y ∷ rest

unfoldable pub sorted_ids : List (ℕ × ℕ) → List ℕ
unfolding insert_id
sorted_ids [] = []
sorted_ids ((a, b) ∷ pairs) = insert_id a (insert_id b (sorted_ids pairs))

-- `clusters.setdefault(root, []).append(eid)`
unfoldable pub add_member : ℕ → ℕ → Dict ℕ (List ℕ) → Dict ℕ (List ℕ)
unfolding get put
add_member root eid clusters = put clusters root (or_else (get clusters root) [] ++ eid ∷ [])

unfoldable pub group : ℕ → List ℕ → Dict ℕ ℕ → Dict ℕ (List ℕ) → Option (Dict ℕ (List ℕ))
unfolding find add_member
group fuel [] parent clusters = some clusters
group fuel (eid ∷ eids) parent clusters =
    then_find (find fuel parent eid)
      λ root parent₁. group fuel eids parent₁ (add_member root eid clusters)

abbrev pub values : Dict ℕ (List ℕ) → List (List ℕ)
values [] = []
values ((k, v) ∷ d) = v ∷ values d

abbrev pub cluster_values : Option (Dict ℕ (List ℕ)) → Option (List (List ℕ))
cluster_values none = none
cluster_values (some clusters) = some (values clusters)

unfoldable pub transitive_clusters : ℕ → List (ℕ × ℕ) → Option (List (List ℕ))
unfolding union_all group sorted_ids
transitive_clusters fuel pairs =
    cluster_values
      (then_dict (union_all fuel pairs []) λ parent. group fuel (sorted_ids pairs) parent [])
