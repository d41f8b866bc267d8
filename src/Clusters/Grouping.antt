-- ===== src/Clusters/Grouping.antt =====
-- The grouping by roots at the end of `_transitive_clusters` (backend/grooming.py).
use paperless_iq.Prelude.{
  ℕ, ◌<◌, ◌≡◌, refl, sym, ap, ◌∙◌, ◌⊎◌, inl, inr, Bool, true, false, ◌&&◌, ◌||◌, some, List, [],
  ◌∷◌, ◌++◌, arith, eqb, if◌then◌else◌, eqb_iff, Bool-cases, or_else, any, All, nat_eq, string_eq,
  contains,
}
use paperless_iq.Prelude.Dict.{Dict, get, put, get-put}
use paperless_iq.Clusters.UnionFind.{parent_of, then_find, add_member, group, values}
use paperless_iq.Clusters.Forest.{iter, Rooted, find_root}

-- The grouping without the halving.
abbrev pub group_by : (ℕ → ℕ) → List ℕ → Dict ℕ (List ℕ) → Dict ℕ (List ℕ)
group_by root [] clusters = clusters
group_by root (e ∷ es) clusters = group_by root es (add_member (root e) e clusters)

pub group_lem :
    (k fuel : ℕ) (root : ℕ → ℕ) (eids : List ℕ) (d : Dict ℕ ℕ) (clusters : Dict ℕ (List ℕ))
    → k < fuel
    → Rooted k (parent_of d)
    → ((z : ℕ) → iter k (parent_of d) z ≡ root z)
    → group fuel eids d clusters ≡ some (group_by root eids clusters)
unfolding group
group_lem k fuel root [] d clusters l r h = refl
group_lem k fuel root (e ∷ es) d clusters l r h =
    let q = find_root k k fuel d e l r refl in
    ap (λ o. then_find o (λ root parent₁. group fuel es parent₁ (add_member root e clusters)))
      q.returns
    ∙ (group_lem k fuel root es q.parents (add_member (iter k (parent_of d) e) e clusters) l
          q.kept.rooted (λ z. q.kept.same z ∙ h z)
        ∙ ap (λ r. some (group_by root es (add_member r e clusters))) (h e))

-- `cs.get(r, [])`
abbrev pub members : Dict ℕ (List ℕ) → ℕ → List ℕ
members clusters r = or_else (get clusters r) []

members-add :
    (clusters : Dict ℕ (List ℕ)) (r e q : ℕ)
    → members (add_member r e clusters) q
      ≡ (if eqb r q then members clusters q ++ e ∷ [] else members clusters q)
unfolding add_member
members-add clusters r e q = elim (Bool-cases (eqb r q)) [
  | inl h ↦
      rw (get-put clusters r q (or_else (get clusters r) [] ++ e ∷ []))
        (rw h (ap (λ x. members clusters x ++ e ∷ []) ((eqb_iff r q).0 h)))
  | inr h ↦ rw (get-put clusters r q (or_else (get clusters r) [] ++ e ∷ [])) (rw h refl)
]

contains-append :
    (xs ys : List ℕ) (x : ℕ) → contains (xs ++ ys) x ≡ (contains xs x || contains ys x)
contains-append [] ys x = refl
contains-append (y ∷ xs) ys x = ground (arith, contains-append xs ys x)

module _ (root : ℕ → ℕ) where
  -- Every id is in the cluster of its root.
  pub members-group :
      (es : List ℕ) (clusters : Dict ℕ (List ℕ)) (x : ℕ)
      → (contains es x || contains (members clusters (root x)) x) ≡ true
      → contains (members (group_by root es clusters) (root x)) x ≡ true
  members-group [] clusters x h = h
  members-group (e ∷ es) clusters x h =
      members-group es (add_member (root e) e clusters) x
        (rw (members-add clusters (root e) e (root x)) (step (Bool-cases (eqb (root e) (root x)))))
    where
      step :
          (eqb (root e) (root x) ≡ true) ⊎ (eqb (root e) (root x) ≡ false)
          → (contains es x
              || contains
                  (if eqb (root e) (root x)
                    then members clusters (root x) ++ e ∷ []
                    else members clusters (root x))
                  x)
            ≡ true
      step (inl q) =
          rw q (rw (contains-append (members clusters (root x)) (e ∷ []) x) (ground arith))
      step (inr q) = rw q (ground (arith, ap root, eqb_iff (root e) (root x), eqb_iff e x))

  -- A member's root is the key.
  abbrev pub Keyed : Dict ℕ (List ℕ) → Type 0
  Keyed clusters = All (λ c. (x : ℕ) → contains c.1 x ≡ true → root x ≡ c.0) clusters

  Keyed-put :
      (clusters : Dict ℕ (List ℕ)) (r : ℕ) (v : List ℕ)
      → ((x : ℕ) → contains v x ≡ true → root x ≡ r)
      → Keyed clusters
      → Keyed (put clusters r v)
  unfolding put
  Keyed-put [] r v h k = (h, tt)
  Keyed-put ((j, w) ∷ clusters) r v h k = elim (Bool-cases (eqb j r)) [
    | inl e ↦ rw e ((λ x m. h x m ∙ sym ((eqb_iff j r).0 e)), k.1)
    | inr e ↦ rw e (k.0, Keyed-put clusters r v h k.1)
  ]

  Keyed-members :
      (clusters : Dict ℕ (List ℕ)) (r x : ℕ)
      → Keyed clusters
      → contains (members clusters r) x ≡ true
      → root x ≡ r
  unfolding get
  Keyed-members [] r x k h = absurd (ground arith)
  Keyed-members ((j, w) ∷ clusters) r x k h = elim (Bool-cases (eqb j r)) [
    | inl e ↦
        k.0 x (
          ap (λ (t : Bool). contains (or_else (if t then some w else get clusters r) []) x) (sym e)
          ∙ h)
        ∙ (eqb_iff j r).0 e
    | inr e ↦ Keyed-members clusters r x k.1 (
        ap (λ (t : Bool). contains (or_else (if t then some w else get clusters r) []) x) (sym e)
        ∙ h)
  ]

  pub Keyed-group :
      (es : List ℕ) (clusters : Dict ℕ (List ℕ))
      → Keyed clusters
      → Keyed (group_by root es clusters)
  unfolding add_member
  Keyed-group [] clusters k = k
  Keyed-group (e ∷ es) clusters k =
      Keyed-group es (add_member (root e) e clusters)
        (Keyed-put clusters (root e) (members clusters (root e) ++ e ∷ []) new k)
    where
      new : (x : ℕ) → contains (members clusters (root e) ++ e ∷ []) x ≡ true → root x ≡ root e
      new x h = elim (Bool-cases (eqb e x)) [
        | inl q ↦ ap root (sym ((eqb_iff e x).0 q))
        | inr q ↦
            Keyed-members clusters (root e) x k
              (ground (arith, contains-append (members clusters (root e)) (e ∷ []) x))
      ]

-- Two ids stand in one of the clusters.
abbrev pub together : List (List ℕ) → ℕ → ℕ → Bool
together cs x y = any (λ c. contains c x && contains c y) cs

pub together_root :
    (root : ℕ → ℕ) (clusters : Dict ℕ (List ℕ)) (x y : ℕ)
    → Keyed root clusters
    → together (values clusters) x y ≡ true
    → root x ≡ root y
together_root root [] x y k h = absurd (ground arith)
together_root root ((j, c) ∷ clusters) x y k h = elim (Bool-cases (contains c x && contains c y)) [
  | inl e ↦ k.0 x (ground arith) ∙ sym (k.0 y (ground arith))
  | inr e ↦ together_root root clusters x y k.1 (ground arith)
]

pub members-together :
    (clusters : Dict ℕ (List ℕ)) (r x y : ℕ)
    → contains (members clusters r) x ≡ true
    → contains (members clusters r) y ≡ true
    → together (values clusters) x y ≡ true
unfolding get
members-together [] r x y a b = absurd (ground arith)
members-together ((j, c) ∷ clusters) r x y a b = elim (Bool-cases (eqb j r)) [
  | inl e ↦ ground arith
  | inr e ↦
      let rest =
        members-together clusters r x y
          (ap (λ (t : Bool). contains (or_else (if t then some c else get clusters r) []) x) (sym e)
            ∙ a)
          (ap (λ (t : Bool). contains (or_else (if t then some c else get clusters r) []) y) (sym e)
            ∙ b) in
      ground (arith, rest)
]
