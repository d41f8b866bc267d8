-- ===== src/Clusters/Partition.antt =====
-- The answer of `_transitive_clusters` (backend/grooming.py) as a partition of the ids.
use paperless_iq.Prelude.{
  ℕ, ◌+◌, ◌≤◌, ◌<◌, ◌≡◌, refl, ap, ◌∙◌, ◌↔◌, inl, inr, Bool, true, ◌||◌, some, List, [], ◌∷◌, ◌++◌,
  arith, ltb, eqb, if◌then◌else◌, ltb→lt, eqb_iff, Bool-cases, or_else, length, any, All, nat_eq,
  string_eq, contains, occurrences, one_if,
}
use paperless_iq.Prelude.Dict.{Dict, get, put}
use paperless_iq.Clusters.UnionFind.{
  parent_of, union_all, then_dict, insert_id, sorted_ids, add_member, group, values, cluster_values,
  transitive_clusters,
}
use paperless_iq.Clusters.Forest.{iter}
use paperless_iq.Clusters.Linked.{Linked}
use paperless_iq.Clusters.Merging.{depth, depth-length, Merged, merged, Linked-roots}
use paperless_iq.Clusters.Grouping.{
  group_by, group_lem, members-group, Keyed-group, together, together_root, members-together,
}

-- The id stands in one of the pairs.
abbrev pub mentioned : List (ℕ × ℕ) → ℕ → Bool
mentioned pairs x = any (λ p. eqb p.0 x || eqb p.1 x) pairs

abbrev concat : List (List ℕ) → List ℕ
concat [] = []
concat (c ∷ cs) = c ++ concat cs

-- In how many places of the clusters the id stands.
abbrev pub places : List (List ℕ) → ℕ → ℕ
places cs x = occurrences x (concat cs)

abbrev Above : ℕ → List ℕ → Type 0
Above b l = All (λ x. b < x) l

abbrev Ascending : List ℕ → Type 0
Ascending [] = Unit {0}
Ascending (x ∷ l) = Above x l × Ascending l

Above-insert : (b x : ℕ) (l : List ℕ) → b < x → Above b l → Above b (insert_id x l)
unfolding insert_id
Above-insert b x [] h a = (h, tt)
Above-insert b x (y ∷ l) h a = ground (arith, Above-insert b x l h a.1)

Above-trans : (b c : ℕ) (l : List ℕ) → b < c → Above c l → Above b l
Above-trans b c [] h a = tt
Above-trans b c (x ∷ l) h a = (omega arith, Above-trans b c l h a.1)

Ascending-insert : (x : ℕ) (l : List ℕ) → Ascending l → Ascending (insert_id x l)
unfolding insert_id
Ascending-insert x [] a = (tt, tt)
Ascending-insert x (y ∷ l) a = elim (Bool-cases (eqb x y)) [
  | inl e ↦ rw e a
  | inr e ↦ rw e (elim (Bool-cases (ltb x y)) [
    | inl f ↦ rw f ((ltb→lt x y f, Above-trans x y l (ltb→lt x y f) a.0), a)
    | inr f ↦ rw f (Above-insert y x l (ground arith) a.0, Ascending-insert x l a.1)
  ])
]

Ascending-sorted : (pairs : List (ℕ × ℕ)) → Ascending (sorted_ids pairs)
unfolding sorted_ids
Ascending-sorted [] = tt
Ascending-sorted ((a, b) ∷ pairs) =
    Ascending-insert a (insert_id b (sorted_ids pairs))
      (Ascending-insert b (sorted_ids pairs) (Ascending-sorted pairs))

occurrences-Above : (x y : ℕ) (l : List ℕ) → x ≤ y → Above y l → occurrences x l ≡ 0
occurrences-Above x y [] h a = refl
occurrences-Above x y (z ∷ l) h a = ground (arith, occurrences-Above x y l h a.1)

occurrences-insert :
    (z x : ℕ) (l : List ℕ)
    → Ascending l
    → occurrences z (insert_id x l) ≡ (if eqb x z then 1 else occurrences z l)
unfolding insert_id
occurrences-insert z x [] a = ground arith
occurrences-insert z x (y ∷ l) a = elim (Bool-cases (eqb x y)) [
  | inl e ↦ rw e (ground (arith, eqb_iff x y, eqb_iff x z, occurrences-Above x y l))
  | inr e ↦ rw e (elim (Bool-cases (ltb x y)) [
    | inl f ↦ rw f (ground (arith, occurrences-Above x y l))
    | inr f ↦ rw f (ground (arith, occurrences-insert z x l a.1))
  ])
]

contains-insert : (z x : ℕ) (l : List ℕ) → contains (insert_id x l) z ≡ (eqb x z || contains l z)
unfolding insert_id
contains-insert z x [] = refl
contains-insert z x (y ∷ l) = ground (arith, eqb_iff x y, contains-insert z x l)

contains-sorted : (pairs : List (ℕ × ℕ)) (z : ℕ) → contains (sorted_ids pairs) z ≡ mentioned pairs z
unfolding sorted_ids
contains-sorted [] z = refl
contains-sorted ((a, b) ∷ pairs) z = ground (
  arith,
  contains-insert z a (insert_id b (sorted_ids pairs)),
  contains-insert z b (sorted_ids pairs),
  contains-sorted pairs z,
)

occurrences-sorted :
    (pairs : List (ℕ × ℕ)) (z : ℕ) → occurrences z (sorted_ids pairs) ≡ one_if (mentioned pairs z)
unfolding sorted_ids
occurrences-sorted [] z = refl
occurrences-sorted ((a, b) ∷ pairs) z =
    let s = Ascending-sorted pairs in
    ground (
      arith,
      occurrences-insert z a (insert_id b (sorted_ids pairs))
          (Ascending-insert b (sorted_ids pairs) s),
      occurrences-insert z b (sorted_ids pairs) s,
      occurrences-sorted pairs z,
    )

occurrences-append :
    (z : ℕ) (xs ys : List ℕ) → occurrences z (xs ++ ys) ≡ occurrences z xs + occurrences z ys
occurrences-append z [] ys = omega arith
occurrences-append z (x ∷ xs) ys = ground (arith, occurrences-append z xs ys)

places-add :
    (z r e : ℕ) (clusters : Dict ℕ (List ℕ))
    → places (values (add_member r e clusters)) z ≡ one_if (eqb z e) + places (values clusters) z
unfolding add_member put get
places-add z r e [] = ground arith
places-add z r e ((j, c) ∷ clusters) = elim (Bool-cases (eqb j r)) [
  | inl h ↦ rw h (
      ground (
        arith,
        occurrences-append z (c ++ e ∷ []) (concat (values clusters)),
        occurrences-append z c (concat (values clusters)),
        occurrences-append z c (e ∷ []),
      ))
  | inr h ↦ rw h (
      ground (
        arith,
        places-add z r e clusters,
        occurrences-append z c (concat (values clusters)),
        occurrences-append z c (concat (values (add_member r e clusters))),
      ))
]

places-group :
    (z : ℕ) (root : ℕ → ℕ) (es : List ℕ) (clusters : Dict ℕ (List ℕ))
    → places (values (group_by root es clusters)) z ≡ occurrences z es + places (values clusters) z
places-group z root [] clusters = omega arith
places-group z root (e ∷ es) clusters = ground (
  arith,
  places-group z root es (add_member (root e) e clusters),
  places-add z (root e) e clusters,
)

-- What is promised of the clusters.
pub record Clustered (pairs : List (ℕ × ℕ)) (cs : List (List ℕ)) : Type 0 where
  pub once : (x : ℕ) → places cs x ≡ one_if (mentioned pairs x)
  pub linked :
      (x y : ℕ)
      → mentioned pairs x ≡ true
      → mentioned pairs y ≡ true
      → (together cs x y ≡ true) ↔ Linked pairs x y

-- With more fuel than there are pairs, `transitive_clusters` returns clusters in which every id of the
-- pairs stands exactly once and no other id stands, and two ids of the pairs share a cluster exactly
-- when a chain of pairs links them.
pub transitive_clusters_lem :
    (fuel : ℕ) (pairs : List (ℕ × ℕ))
    → length pairs < fuel
    → (cs : List (List ℕ)) × (transitive_clusters fuel pairs ≡ some cs) × Clustered pairs cs
unfolding transitive_clusters
transitive_clusters_lem fuel pairs l = (
  values found,
  ap (λ o. cluster_values (then_dict o λ parent. group fuel (sorted_ids pairs) parent [])) m.returns
      ∙ ap cluster_values (
          group_lem (depth 0 pairs) fuel root (sorted_ids pairs) m.parents []
            (omega (arith, depth-length 0 pairs)) m.rooted (λ z. refl)),
  record {
    once =
        λ x. ground (arith, places-group x root (sorted_ids pairs) [], occurrences-sorted pairs x);
    linked = λ x y hx hy. (
      λ t.
          (Linked-roots fuel pairs m x y).0
            (together_root root found x y (Keyed-group root (sorted_ids pairs) [] tt) t),
      λ t. members-together found (root x) x y (listed x hx) (
          ap (λ r. contains (or_else (get found r) []) y) ((Linked-roots fuel pairs m x y).1 t)
          ∙ listed y hy),
    );
  },
)
  where
    m : Merged 0 [] pairs (union_all fuel pairs [])
    m = merged fuel pairs l

    root : ℕ → ℕ
    root z = iter (depth 0 pairs) (parent_of m.parents) z

    found : Dict ℕ (List ℕ)
    found = group_by root (sorted_ids pairs) []

    listed :
        (x : ℕ) → mentioned pairs x ≡ true → contains (or_else (get found (root x)) []) x ≡ true
    listed x h =
        members-group root (sorted_ids pairs) [] x (ground (arith, contains-sorted pairs x))
