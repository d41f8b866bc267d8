-- ===== src/Clusters/Linked.antt =====
-- The loop over the pairs against the relation that the pairs generate.
use paperless_iq.Prelude.{
  ℕ, zero, suc, ◌<◌, ◌≡◌, refl, sym, ap, ◌∙◌, inl, inr, Bool, true, false, ◌&&◌, Option, some, List,
  eqb, if◌then◌else◌, eqb_iff, Bool-cases, any, nat_eq, string_eq,
}
use paperless_iq.Prelude.Dict.{Dict, put}
use paperless_iq.Clusters.UnionFind.{parent_of, find, union, then_find}
use paperless_iq.Clusters.Forest.{iter, at, iter_fixed, Rooted, Found, find_root, parent_of-put}

abbrev pub has_pair : List (ℕ × ℕ) → ℕ → ℕ → Bool
has_pair pairs a b = any (λ p. eqb p.0 a && eqb p.1 b) pairs

-- Two ids are linked when a chain of similar pairs leads from one to the other.
pub data Linked (pairs : List (ℕ × ℕ)) : ℕ → ℕ → Type 0 where
  self : {x : ℕ} → Linked pairs x x
  pair : {x y : ℕ} → has_pair pairs x y ≡ true → Linked pairs x y
  back : {x y : ℕ} → Linked pairs x y → Linked pairs y x
  chain : {x y z : ℕ} → Linked pairs x y → Linked pairs y z → Linked pairs x z

-- The root `ry` becomes the parent of the root `rx`.
module _ (f g : ℕ → ℕ) (rx ry : ℕ) (linked : (y : ℕ) → g y ≡ at f rx ry y) (rootx : f rx ≡ rx)
    (rooty : f ry ≡ ry) where
  abbrev moved : ℕ → ℕ
  moved r = if eqb rx r then ry else r

  link_at : (r : ℕ) → f r ≡ r → g r ≡ moved r
  link_at r h = linked r ∙ ap (λ v. if eqb rx r then ry else v) h

  link_top : g ry ≡ ry
  link_top = link_at ry rooty ∙ either (eqb rx ry)
    where
      either : (b : Bool) → (if b then ry else ry) ≡ ry
      either true = refl
      either false = refl

  link_iter : (n z r : ℕ) → iter n f z ≡ r → f r ≡ r → iter (suc n) g z ≡ moved r
  link_iter zero z r h q = ap g h ∙ link_at r q
  link_iter (suc n) z r h q = elim (Bool-cases (eqb rx z)) [
    | inl e ↦
        let s = (eqb_iff rx z).0 e in
        let same = iter_fixed (suc n) f rx rootx in
        ap (λ y. iter (suc (suc n)) g y) (sym s)
        ∙ (ap (iter (suc n) g)
              (link_at rx rootx ∙ ap (λ (b : Bool). if b then ry else rx) ((eqb_iff rx rx).1 refl))
            ∙ (iter_fixed (suc n) g ry link_top
                ∙ sym (
                    ap moved (sym h ∙ (ap (λ y. iter (suc n) f y) (sym s) ∙ same))
                    ∙ ap (λ (b : Bool). if b then ry else rx) ((eqb_iff rx rx).1 refl))))
    | inr e ↦
        ap (iter (suc n) g) (linked z ∙ ap (λ (b : Bool). if b then ry else f z) e)
        ∙ link_iter n (f z) r h q
  ]

  link_stays : (r : ℕ) → f r ≡ r → g (moved r) ≡ moved r
  link_stays r h = by_case (eqb rx r) refl
    where
      by_case : (b : Bool) → eqb rx r ≡ b → g (if b then ry else r) ≡ (if b then ry else r)
      by_case true e = link_top
      by_case false e = link_at r h ∙ ap (λ (b : Bool). if b then ry else r) e

-- What a `union` that returns has done.
pub record Joined (k : ℕ) (d : Dict ℕ ℕ) (a b : ℕ) (answer : Option (Dict ℕ ℕ)) : Type 0 where
  pub parents : Dict ℕ ℕ
  pub returns : answer ≡ some parents
  pub rooted : Rooted (suc k) (parent_of parents)
  pub roots :
      (z : ℕ)
      → iter (suc k) (parent_of parents) z ≡ (
          if eqb (iter k (parent_of d) a) (iter k (parent_of d) z)
          then iter k (parent_of d) b
          else iter k (parent_of d) z)

pub union_joins :
    (k fuel : ℕ) (d : Dict ℕ ℕ) (a b : ℕ)
    → k < fuel
    → Rooted k (parent_of d)
    → Joined k d a b (union fuel d a b)
unfolding union
union_joins k fuel d a b l r = record {
  parents = put q.parents rx ry;
  returns =
      ap
        (λ o. then_find o (λ root_y parent₁.
          then_find (find fuel parent₁ a) λ root_x parent₂. some (put parent₂ root_x root_y)))
        p.returns
      ∙ (ap (λ o. then_find o (λ root_x parent₂. some (put parent₂ root_x ry))) q.returns
          ∙ ap (λ z. some (put q.parents z ry)) (p.kept.same a));
  rooted = record {
    fixed = λ z.
        ap g (value z)
        ∙ (link_stays f g rx ry links at_x at_y (iter k f z) (q.kept.rooted.fixed z)
            ∙ sym (value z));
  };
  roots = λ z. value z ∙ ap (λ v. if eqb rx v then ry else v) (q.kept.same z ∙ p.kept.same z);
}
  where
    p : Found k d b (find fuel d b)
    p = find_root k k fuel d b l r refl

    q : Found k p.parents a (find fuel p.parents a)
    q = find_root k k fuel p.parents a l p.kept.rooted refl

    rx : ℕ
    rx = iter k (parent_of d) a

    ry : ℕ
    ry = iter k (parent_of d) b

    f : ℕ → ℕ
    f = parent_of q.parents

    g : ℕ → ℕ
    g = parent_of (put q.parents rx ry)

    links : (y : ℕ) → g y ≡ at f rx ry y
    links y = parent_of-put q.parents rx ry y

    is_root : (z : ℕ) → f (iter k (parent_of d) z) ≡ iter k (parent_of d) z
    is_root z = let s = q.kept.same z ∙ p.kept.same z in ap f (sym s) ∙ (q.kept.rooted.fixed z ∙ s)

    at_x : f rx ≡ rx
    at_x = is_root a

    at_y : f ry ≡ ry
    at_y = is_root b

    value : (z : ℕ) → iter (suc k) g z ≡ (if eqb rx (iter k f z) then ry else iter k f z)
    value z = link_iter f g rx ry links at_x at_y k z (iter k f z) refl (q.kept.rooted.fixed z)
