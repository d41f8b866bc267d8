-- ===== src/Clusters/Forest.antt =====
-- Parents as a function: what path halving and linking do to the roots.
use paperless_iq.Prelude.{
  ℕ, zero, suc, ◌-◌, ◌<◌, ◌≡◌, refl, sym, ap, ◌∙◌, inl, inr, true, false, Option, some, arith, eqb,
  if◌then◌else◌, eqb_iff, Bool-cases, nat_eq, string_eq,
}
use paperless_iq.Prelude.Dict.{Dict, put, get-put}
use paperless_iq.Clusters.UnionFind.{parent_of, find}

abbrev pub iter : ℕ → (ℕ → ℕ) → ℕ → ℕ
iter zero f x = x
iter (suc n) f x = iter n f (f x)

-- After `k` steps every chain of parents has come to its root.
pub record Rooted (k : ℕ) (f : ℕ → ℕ) : Type 0 where
  pub fixed : (x : ℕ) → f (iter k f x) ≡ iter k f x

pub iter_fixed : (n : ℕ) (f : ℕ → ℕ) (r : ℕ) → f r ≡ r → iter n f r ≡ r
iter_fixed zero f r h = refl
iter_fixed (suc n) f r h = ap (iter n f) h ∙ iter_fixed n f r h

iter_last : (n : ℕ) (f : ℕ → ℕ) (x : ℕ) → iter (suc n) f x ≡ f (iter n f x)
iter_last zero f x = refl
iter_last (suc n) f x = iter_last n f (f x)

-- `f` changed at `x`.
abbrev pub at : (ℕ → ℕ) → ℕ → ℕ → ℕ → ℕ
at f x v y = if eqb x y then v else f y

pub parent_of-put : (d : Dict ℕ ℕ) (x v y : ℕ) → parent_of (put d x v) y ≡ at (parent_of d) x v y
unfolding parent_of
parent_of-put d x v y = rw (get-put d x y v) (ground arith)

module _ (f g : ℕ → ℕ) (x : ℕ) (halved : (y : ℕ) → g y ≡ at f x (f (f x)) y) where
  halved_same : g x ≡ f (f x)
  halved_same = halved x ∙ ground arith

  halved_other : (y : ℕ) → eqb x y ≡ false → g y ≡ f y
  halved_other y e = halved y ∙ rw e refl

  here : (y : ℕ) → eqb x y ≡ true → g y ≡ f (f y)
  here y e = let s = (eqb_iff x y).0 e in ap g (sym s) ∙ (halved_same ∙ ap (λ z. f (f z)) s)

  halved_fixed : (r : ℕ) → f r ≡ r → g r ≡ r
  halved_fixed r h = elim (Bool-cases (eqb x r)) [
    | inl e ↦ here r e ∙ (ap f h ∙ h)
    | inr e ↦ halved_other r e ∙ h
  ]

  -- Halving keeps the roots, and no chain becomes longer.
  halved_iter : (n y r : ℕ) → iter n f y ≡ r → f r ≡ r → iter n g y ≡ r
  halved_iter zero y r h q = h
  halved_iter (suc zero) y r h q = elim (Bool-cases (eqb x y)) [
    | inl e ↦ here y e ∙ (ap f h ∙ q)
    | inr e ↦ halved_other y e ∙ h
  ]
  halved_iter (suc (suc n)) y r h q = elim (Bool-cases (eqb x y)) [
    | inl e ↦
        ap (iter (suc n) g) (here y e)
        ∙ (iter_last n g (f (f y)) ∙ (ap g (halved_iter n (f (f y)) r h q) ∙ halved_fixed r q))
    | inr e ↦ ap (iter (suc n) g) (halved_other y e) ∙ halved_iter (suc n) (f y) r h q
  ]

-- The same roots, and chains that are no longer.
pub record SameRoots (k : ℕ) (d d' : Dict ℕ ℕ) : Type 0 where
  pub rooted : Rooted k (parent_of d')
  pub same : (y : ℕ) → iter k (parent_of d') y ≡ iter k (parent_of d) y

SameRoots-refl : (k : ℕ) (d : Dict ℕ ℕ) → Rooted k (parent_of d) → SameRoots k d d
SameRoots-refl k d r = record { rooted = r; same = λ y. refl }

SameRoots-trans :
    (k : ℕ) (d d' d'' : Dict ℕ ℕ) → SameRoots k d d' → SameRoots k d' d'' → SameRoots k d d''
SameRoots-trans k d d' d'' a b = record { rooted = b.rooted; same = λ y. b.same y ∙ a.same y }

-- The step of the loop in `find`.
pub halving :
    (k : ℕ) (d : Dict ℕ ℕ) (x : ℕ)
    → Rooted k (parent_of d)
    → SameRoots k d (put d x (parent_of d (parent_of d x)))
halving k d x r = record {
  rooted = record {
    fixed =
        λ y. ap g (same y) ∙ (halved_fixed f g x halved (iter k f y) (r.fixed y) ∙ sym (same y));
  };
  same = same;
}
  where
    f : ℕ → ℕ
    f = parent_of d

    g : ℕ → ℕ
    g = parent_of (put d x (parent_of d (parent_of d x)))

    halved : (y : ℕ) → g y ≡ at f x (f (f x)) y
    halved y = parent_of-put d x (f (f x)) y

    same : (y : ℕ) → iter k g y ≡ iter k f y
    same y = halved_iter f g x halved k y (iter k f y) refl (r.fixed y)

halved_chain :
    (k n : ℕ) (d : Dict ℕ ℕ) (x z : ℕ)
    → Rooted k (parent_of d)
    → iter n (parent_of d) z ≡ iter k (parent_of d) z
    → iter n (parent_of (put d x (parent_of d (parent_of d x)))) z
      ≡ iter k (parent_of (put d x (parent_of d (parent_of d x)))) z
halved_chain k n d x z r h =
    halved_iter (parent_of d) (parent_of (put d x (parent_of d (parent_of d x)))) x
      (λ y. parent_of-put d x (parent_of d (parent_of d x)) y) n z (iter k (parent_of d) z) h
      (r.fixed z)
    ∙ sym ((halving k d x r).same z)

-- What a `find` that returns has done.
pub record Found (k : ℕ) (d : Dict ℕ ℕ) (x : ℕ) (answer : Option (ℕ × Dict ℕ ℕ)) : Type 0 where
  pub parents : Dict ℕ ℕ
  pub returns : answer ≡ some (iter k (parent_of d) x, parents)
  pub kept : SameRoots k d parents

chain_step :
    (n : ℕ) (f : ℕ → ℕ) (x r : ℕ)
    → iter n f x ≡ r
    → f r ≡ r
    → eqb (f x) x ≡ false
    → (0 < n) × (iter (n - 2) f (f (f x)) ≡ r)
chain_step zero f x r h q e = absurd (cc ((eqb_iff (f x) x).1 (ap f h ∙ (q ∙ sym h)), e))
chain_step (suc zero) f x r h q e = (omega arith, ap f h ∙ q)
chain_step (suc (suc n)) f x r h q e = (omega arith, ap (λ m. iter m f (f (f x))) (less n) ∙ h)
  where
    less : (m : ℕ) → suc (suc m) - 2 ≡ m
    less m = omega arith

pub root_parent : (k : ℕ) (f : ℕ → ℕ) (x : ℕ) → Rooted k f → iter k f (f x) ≡ iter k f x
root_parent k f x r = iter_last k f x ∙ r.fixed x

-- With a chain of `n` steps from `x` to its root, fuel above `n` is enough.
pub find_root :
    (k n fuel : ℕ) (d : Dict ℕ ℕ) (x : ℕ)
    → n < fuel
    → Rooted k (parent_of d)
    → iter n (parent_of d) x ≡ iter k (parent_of d) x
    → Found k d x (find fuel d x)
unfolding find
find_root k n zero d x l r h = absurd (omega arith)
find_root k n (suc fuel) d x l r h = elim (Bool-cases (eqb (parent_of d x) x)) [
  | inl e ↦ rw e (record {
    parents = d;
    returns =
        ap (λ z. some (z, d))
          (sym (iter_fixed k (parent_of d) x ((eqb_iff (parent_of d x) x).0 e)));
    kept = SameRoots-refl k d r;
  })
  | inr e ↦ rw e (
      let c = chain_step n (parent_of d) x (iter k (parent_of d) x) h (r.fixed x) e in
      let hv = halving k d x r in
      let up = root_parent k (parent_of d) (parent_of d x) r ∙ root_parent k (parent_of d) x r in
      let rest =
        find_root k (n - 2) fuel (put d x (parent_of d (parent_of d x)))
          (parent_of d (parent_of d x)) (omega (arith, l, c.0)) hv.rooted
          (halved_chain k (n - 2) d x (parent_of d (parent_of d x)) r (c.1 ∙ sym up)) in
      record {
        parents = rest.parents;
        returns =
            rest.returns
            ∙ ap (λ z. some (z, rest.parents)) (hv.same (parent_of d (parent_of d x)) ∙ up);
        kept =
            SameRoots-trans k d (put d x (parent_of d (parent_of d x))) rest.parents hv rest.kept;
      })
]
