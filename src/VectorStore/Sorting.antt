-- ===== src/VectorStore/Sorting.antt =====
-- `sorted(..., reverse=True)` by a score, as in backend/vector_store.py.
use mathlib.Core.List.{Perm}
use mathlib.Core.List.Perm
use paperless_iq.Prelude.{
  ℕ, ◌≤◌, sym, ◌≢◌, ◌⊎◌, inl, inr, List, [], ◌∷◌, arith, leb, leb→le, Bool-cases, All, nat_eq,
  string_eq, Somewhere,
}
use paperless_iq.VectorStore.Results.{insert_scored, best_first}

module _ {ℓ} {A : Type ℓ} (score : A → ℕ) where
  -- No later element has a higher score.
  abbrev pub Descending : List A → Type 0
  Descending [] = Unit
  Descending (x ∷ xs) = All (λ y. score y ≤ score x) xs × Descending xs

  module _ (P : A → Type 0) where
    All-insert : (x : A) (xs : List A) → P x → All P xs → All P (insert_scored score x xs)
    unfolding insert_scored
    All-insert x [] p a = (p, tt)
    All-insert x (y ∷ ys) p a = elim (Bool-cases (leb (score y) (score x))) [
      | inl e ↦ rw e (p, a)
      | inr e ↦ rw e (a.0, All-insert x ys p a.1)
    ]

    pub All-best_first : (xs : List A) → All P xs → All P (best_first score xs)
    unfolding best_first
    All-best_first [] a = tt
    All-best_first (x ∷ xs) a = All-insert x (best_first score xs) a.0 (All-best_first xs a.1)

    Somewhere-insert :
        (x : A) (xs : List A) → P x ⊎ Somewhere P xs → Somewhere P (insert_scored score x xs)
    unfolding insert_scored
    Somewhere-insert x [] h = h
    Somewhere-insert x (y ∷ ys) (inl p) = elim (Bool-cases (leb (score y) (score x))) [
      | inl e ↦ rw e (inl p)
      | inr e ↦ rw e (inr (Somewhere-insert x ys (inl p)))
    ]
    Somewhere-insert x (y ∷ ys) (inr (inl q)) = elim (Bool-cases (leb (score y) (score x))) [
      | inl e ↦ rw e (inr (inl q))
      | inr e ↦ rw e (inl q)
    ]
    Somewhere-insert x (y ∷ ys) (inr (inr q)) = elim (Bool-cases (leb (score y) (score x))) [
      | inl e ↦ rw e (inr (inr q))
      | inr e ↦ rw e (inr (Somewhere-insert x ys (inr q)))
    ]

    pub Somewhere-best_first : (xs : List A) → Somewhere P xs → Somewhere P (best_first score xs)
    unfolding best_first
    Somewhere-best_first [] h = h
    Somewhere-best_first (x ∷ xs) (inl p) = Somewhere-insert x (best_first score xs) (inl p)
    Somewhere-best_first (x ∷ xs) (inr q) =
        Somewhere-insert x (best_first score xs) (inr (Somewhere-best_first xs q))

  insert_scored-perm : (x : A) (xs : List A) → Perm (insert_scored score x xs) (x ∷ xs)
  unfolding insert_scored
  insert_scored-perm x [] = Perm.refl (x ∷ [])
  insert_scored-perm x (y ∷ ys) = elim (Bool-cases (leb (score y) (score x))) [
    | inl e ↦ rw e (Perm.refl (x ∷ y ∷ ys))
    | inr e ↦ rw e (Perm.trans (Perm.cons y (insert_scored-perm x ys)) (Perm.swap x y ys))
  ]

  pub best_first-perm : (xs : List A) → Perm (best_first score xs) xs
  unfolding best_first
  best_first-perm [] = Perm.refl []
  best_first-perm (x ∷ xs) =
      Perm.trans (insert_scored-perm x (best_first score xs)) (Perm.cons x (best_first-perm xs))

  below_trans :
      (b c : ℕ) (xs : List A) → b ≤ c → All (λ y. score y ≤ b) xs → All (λ y. score y ≤ c) xs
  below_trans b c [] h a = tt
  below_trans b c (x ∷ xs) h a = (omega arith, below_trans b c xs h a.1)

  Descending-insert : (x : A) (xs : List A) → Descending xs → Descending (insert_scored score x xs)
  unfolding insert_scored
  Descending-insert x [] d = (tt, tt)
  Descending-insert x (y ∷ ys) d = elim (Bool-cases (leb (score y) (score x))) [
    | inl e ↦ rw e (
      (
        leb→le (score y) (score x) e,
        below_trans (score y) (score x) ys (leb→le (score y) (score x) e) d.0,
      ),
      d,
    )
    | inr e ↦
        rw e
          (All-insert (λ z. score z ≤ score y) x ys (ground arith) d.0, Descending-insert x ys d.1)
  ]

  pub Descending-best_first : (xs : List A) → Descending (best_first score xs)
  unfolding best_first
  Descending-best_first [] = tt
  Descending-best_first (x ∷ xs) =
      Descending-insert x (best_first score xs) (Descending-best_first xs)

  -- No two elements have the same key.
  abbrev pub Distinct : (A → ℕ) → List A → Type 0
  Distinct key [] = Unit
  Distinct key (x ∷ xs) = All (λ y. key y ≢ key x) xs × Distinct key xs

  Distinct-insert :
      (key : A → ℕ) (x : A) (xs : List A)
      → All (λ y. key y ≢ key x) xs
      → Distinct key xs
      → Distinct key (insert_scored score x xs)
  unfolding insert_scored
  Distinct-insert key x [] a d = (tt, tt)
  Distinct-insert key x (y ∷ ys) a d = elim (Bool-cases (leb (score y) (score x))) [
    | inl e ↦ rw e (a, d)
    | inr e ↦ rw e (
      All-insert (λ z. key z ≢ key y) x ys (λ q. a.0 (sym q)) d.0,
      Distinct-insert key x ys a.1 d.1,
    )
  ]

  pub Distinct-best_first :
      (key : A → ℕ) (xs : List A) → Distinct key xs → Distinct key (best_first score xs)
  unfolding best_first
  Distinct-best_first key [] d = tt
  Distinct-best_first key (x ∷ xs) d =
      Distinct-insert key x (best_first score xs) (All-best_first (λ y. key y ≢ key x) xs d.0)
        (Distinct-best_first key xs d.1)
