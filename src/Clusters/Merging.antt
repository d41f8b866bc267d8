-- ===== src/Clusters/Merging.antt =====
-- The loop over the pairs of `_transitive_clusters` (backend/grooming.py), and the relation that
-- the pairs generate.
use paperless_iq.Prelude.{
  ℕ, suc, ◌+◌, ◌≤◌, ◌<◌, ◌≡◌, refl, sym, ap, ◌∙◌, ◌↔◌, inl, inr, Bool, true, false, ◌&&◌, Option,
  some, List, [], ◌∷◌, arith, eqb, if◌then◌else◌, eqb_iff, Bool-cases, length, All, nat_eq,
  string_eq,
}
use paperless_iq.Prelude.Dict.{Dict, get}
use mathlib.Core.Path.{subst}
use paperless_iq.Clusters.UnionFind.{parent_of, union, then_dict, union_all}
use paperless_iq.Clusters.Forest.{iter, Rooted}
use paperless_iq.Clusters.Linked.{has_pair, Linked, self, pair, back, chain, Joined, union_joins}

-- How long a chain can be after the unions of `pairs`.
abbrev pub depth : ℕ → List (ℕ × ℕ) → ℕ
depth k [] = k
depth k (p ∷ pairs) = depth (suc k) pairs

pub depth-length : (k : ℕ) (pairs : List (ℕ × ℕ)) → depth k pairs ≡ k + length pairs
depth-length k [] = omega arith
depth-length k (p ∷ pairs) = omega (arith, depth-length (suc k) pairs)

-- What the loop has done when it returns.
pub record Merged (k : ℕ) (d : Dict ℕ ℕ) (pairs : List (ℕ × ℕ)) (answer : Option (Dict ℕ ℕ))
    : Type 0 where
  pub parents : Dict ℕ ℕ
  pub returns : answer ≡ some parents
  pub rooted : Rooted (depth k pairs) (parent_of parents)
  pub coarser :
      (u v : ℕ)
      → iter k (parent_of d) u ≡ iter k (parent_of d) v
      → iter (depth k pairs) (parent_of parents) u ≡ iter (depth k pairs) (parent_of parents) v
  pub agrees :
      All
        (λ p.
          iter (depth k pairs) (parent_of parents) p.0
          ≡ iter (depth k pairs) (parent_of parents) p.1)
        pairs
  pub sound :
      (similar : List (ℕ × ℕ))
      → All (λ p. Linked similar p.0 p.1) pairs
      → ((z : ℕ) → Linked similar z (iter k (parent_of d) z))
      → (z : ℕ) → Linked similar z (iter (depth k pairs) (parent_of parents) z)

module _ (k : ℕ) (d : Dict ℕ ℕ) (a b : ℕ) (answer : Option (Dict ℕ ℕ))
    (j : Joined k d a b answer) where
  rep : ℕ → ℕ
  rep z = iter k (parent_of d) z

  rep' : ℕ → ℕ
  rep' z = iter (suc k) (parent_of j.parents) z

  joined_coarser :
      (u v : ℕ)
      → iter k (parent_of d) u ≡ iter k (parent_of d) v
      → iter (suc k) (parent_of j.parents) u ≡ iter (suc k) (parent_of j.parents) v
  joined_coarser u v e =
      j.roots u
      ∙ (ap (λ r. if eqb (iter k (parent_of d) a) r then iter k (parent_of d) b else r) e
          ∙ sym (j.roots v))

  joined_agrees : iter (suc k) (parent_of j.parents) a ≡ iter (suc k) (parent_of j.parents) b
  joined_agrees =
      j.roots a
      ∙ (ap (λ (t : Bool). if t then iter k (parent_of d) b else iter k (parent_of d) a)
            ((eqb_iff (iter k (parent_of d) a) (iter k (parent_of d) a)).1 refl)
          ∙ sym (j.roots b ∙ either (eqb (iter k (parent_of d) a) (iter k (parent_of d) b))))
    where
      either :
          (t : Bool)
          → (if t then iter k (parent_of d) b else iter k (parent_of d) b) ≡ iter k (parent_of d) b
      either true = refl
      either false = refl

  joined_sound :
      (similar : List (ℕ × ℕ))
      → Linked similar a b
      → ((z : ℕ) → Linked similar z (iter k (parent_of d) z))
      → (z : ℕ) → Linked similar z (iter (suc k) (parent_of j.parents) z)
  joined_sound similar ab h z =
      subst (Linked similar z) (sym (j.roots z))
        (by_case (eqb (iter k (parent_of d) a) (iter k (parent_of d) z)) refl)
    where
      by_case :
          (t : Bool)
          → eqb (iter k (parent_of d) a) (iter k (parent_of d) z) ≡ t
          → Linked similar z (if t then iter k (parent_of d) b else iter k (parent_of d) z)
      by_case true e =
          let to_a =
            subst (Linked similar z)
              (sym ((eqb_iff (iter k (parent_of d) a) (iter k (parent_of d) z)).0 e)) (h z) in
          chain to_a (chain (back (h a)) (chain ab (h b)))
      by_case false e = h z

le_depth : (k : ℕ) (pairs : List (ℕ × ℕ)) → k ≤ depth k pairs
le_depth k pairs = omega (arith, depth-length k pairs)

pub union_all_merges :
    (fuel : ℕ) (pairs : List (ℕ × ℕ)) (k : ℕ) (d : Dict ℕ ℕ)
    → depth k pairs < fuel
    → Rooted k (parent_of d)
    → Merged k d pairs (union_all fuel pairs d)
unfolding union_all
union_all_merges fuel [] k d l r = record {
  parents = d;
  returns = refl;
  rooted = r;
  coarser = λ u v e. e;
  agrees = tt;
  sound = λ similar _ h. h;
}
union_all_merges fuel ((a, b) ∷ pairs) k d l r =
    let j = union_joins k fuel d a b (omega (arith, le_depth (suc k) pairs)) r in
    let m = union_all_merges fuel pairs (suc k) j.parents l j.rooted in
    record {
      parents = m.parents;
      returns = ap (λ o. then_dict o (union_all fuel pairs)) j.returns ∙ m.returns;
      rooted = m.rooted;
      coarser = λ u v e. m.coarser u v (joined_coarser k d a b (union fuel d a b) j u v e);
      agrees = (m.coarser a b (joined_agrees k d a b (union fuel d a b) j), m.agrees);
      sound = λ similar p h.
          m.sound similar p.1 (joined_sound k d a b (union fuel d a b) j similar p.0 h);
    }

-- From no parents at all.
module _ (fuel : ℕ) (pairs : List (ℕ × ℕ)) (l : length pairs < fuel) where
  pub merged : Merged 0 [] pairs (union_all fuel pairs [])
  unfolding parent_of get
  merged =
      union_all_merges fuel pairs 0 [] (omega (arith, depth-length 0 pairs))
        (record { fixed = λ x. refl })

own_pairs :
    (pairs more : List (ℕ × ℕ))
    → ((x y : ℕ) → has_pair more x y ≡ true → has_pair pairs x y ≡ true)
    → All (λ p. Linked pairs p.0 p.1) more
own_pairs pairs [] h = tt
own_pairs pairs ((a, b) ∷ more) h = (
  pair (h a b (ground (arith, eqb_iff a a, eqb_iff b b))),
  own_pairs pairs more (λ x y e. h x y (ground arith)),
)

agrees_pair :
    (f : ℕ → ℕ) (pairs : List (ℕ × ℕ)) (x y : ℕ)
    → All (λ p. f p.0 ≡ f p.1) pairs
    → has_pair pairs x y ≡ true
    → f x ≡ f y
agrees_pair f [] x y a h = absurd (ground arith)
agrees_pair f ((c, d) ∷ pairs) x y a h = elim (Bool-cases (eqb c x && eqb d y)) [
  | inl e ↦ ground (arith, eqb_iff c x, eqb_iff d y)
  | inr e ↦ agrees_pair f pairs x y a.1 (ground arith)
]

pub agrees-Linked :
    (f : ℕ → ℕ) (pairs : List (ℕ × ℕ)) (x y : ℕ)
    → All (λ p. f p.0 ≡ f p.1) pairs
    → Linked pairs x y
    → f x ≡ f y
agrees-Linked f pairs x y a self = refl
agrees-Linked f pairs x y a (pair h) = agrees_pair f pairs x y a h
agrees-Linked f pairs x y a (back {x = u} {y = v} l) = sym (agrees-Linked f pairs u v a l)
agrees-Linked f pairs x y a (chain {y = m} l r) =
    agrees-Linked f pairs x m a l ∙ agrees-Linked f pairs m y a r

pub Linked-roots :
    (fuel : ℕ) (pairs : List (ℕ × ℕ)) (m : Merged 0 [] pairs (union_all fuel pairs [])) (x y : ℕ)
    → (iter (depth 0 pairs) (parent_of m.parents) x ≡ iter (depth 0 pairs) (parent_of m.parents) y)
      ↔ Linked pairs x y
unfolding parent_of get
Linked-roots fuel pairs m x y = (
  λ e. chain (reaches x) (subst (λ r. Linked pairs r y) (sym e) (back (reaches y))),
  agrees-Linked (iter (depth 0 pairs) (parent_of m.parents)) pairs x y m.agrees,
)
  where
    reaches : (z : ℕ) → Linked pairs z (iter (depth 0 pairs) (parent_of m.parents) z)
    reaches = m.sound pairs (own_pairs pairs pairs (λ u v e. e)) (λ z. self)
