-- ===== src/VectorStore/Selecting.antt =====
-- The filter, the map and the cut after the sorting in _assemble_doc_results
-- (backend/vector_store.py).
use paperless_iq.Prelude.{
  ℕ, zero, suc, ◌≤◌, ◌≡◌, refl, ap, ◌≢◌, ◌⊎◌, inl, inr, Bool, true, List, [], ◌∷◌, map, arith,
  Bool-cases, length, take, keep, All, All-keep, nat_eq, string_eq, Somewhere,
}
use paperless_iq.VectorStore.Sorting.{Descending, Distinct}

module _ {A : Type 0} (p : A → Bool) where
  pub kept_pass :
      (P : A → Type 0) (xs : List A) → All P xs → All (λ x. P x × (p x ≡ true)) (keep p xs)
  kept_pass P [] a = tt
  kept_pass P (x ∷ xs) a = elim (Bool-cases (p x)) [
    | inl e ↦ rw e ((a.0, e), kept_pass P xs a.1)
    | inr e ↦ rw e (kept_pass P xs a.1)
  ]

  pub Somewhere-keep :
      (P : A → Type 0)
      → ((x : A) → P x → p x ≡ true)
      → (xs : List A) → Somewhere P xs
      → Somewhere P (keep p xs)
  Somewhere-keep P f [] h = h
  Somewhere-keep P f (x ∷ xs) (inl h) = rw (f x h) (inl h)
  Somewhere-keep P f (x ∷ xs) (inr h) = elim (Bool-cases (p x)) [
    | inl e ↦ rw e (inr (Somewhere-keep P f xs h))
    | inr e ↦ rw e (Somewhere-keep P f xs h)
  ]

  pub Descending-keep :
      (score : A → ℕ) (xs : List A) → Descending score xs → Descending score (keep p xs)
  Descending-keep score [] d = tt
  Descending-keep score (x ∷ xs) d = elim (Bool-cases (p x)) [
    | inl e ↦ rw e (All-keep (λ y. score y ≤ score x) p xs d.0, Descending-keep score xs d.1)
    | inr e ↦ rw e (Descending-keep score xs d.1)
  ]

  pub Distinct-keep :
      (score key : A → ℕ) (xs : List A) → Distinct score key xs → Distinct score key (keep p xs)
  Distinct-keep score key [] d = tt
  Distinct-keep score key (x ∷ xs) d = elim (Bool-cases (p x)) [
    | inl e ↦ rw e (All-keep (λ y. key y ≢ key x) p xs d.0, Distinct-keep score key xs d.1)
    | inr e ↦ rw e (Distinct-keep score key xs d.1)
  ]

module _ {A B : Type 0} (f : A → B) where
  pub All-map : (Q : B → Type 0) (xs : List A) → All (λ x. Q (f x)) xs → All Q (map f xs)
  All-map Q [] a = tt
  All-map Q (x ∷ xs) a = (a.0, All-map Q xs a.1)

  pub Somewhere-map :
      (Q : B → Type 0) (xs : List A) → Somewhere (λ x. Q (f x)) xs → Somewhere Q (map f xs)
  Somewhere-map Q [] h = h
  Somewhere-map Q (x ∷ xs) (inl h) = inl h
  Somewhere-map Q (x ∷ xs) (inr h) = inr (Somewhere-map Q xs h)

  pub Descending-map :
      (score : B → ℕ) (xs : List A) → Descending (λ x. score (f x)) xs → Descending score (map f xs)
  Descending-map score [] d = tt
  Descending-map score (x ∷ xs) d =
      (All-map (λ y. score y ≤ score (f x)) xs d.0, Descending-map score xs d.1)

  pub Distinct-map :
      (score : A → ℕ) (score' key : B → ℕ) (xs : List A)
      → Distinct score (λ x. key (f x)) xs
      → Distinct score' key (map f xs)
  Distinct-map score score' key [] d = tt
  Distinct-map score score' key (x ∷ xs) d =
      (All-map (λ y. key y ≢ key (f x)) xs d.0, Distinct-map score score' key xs d.1)

module _ {A : Type 0} where
  pub All-take : (P : A → Type 0) (n : ℕ) (xs : List A) → All P xs → All P (take n xs)
  All-take P zero xs a = tt
  All-take P (suc n) [] a = tt
  All-take P (suc n) (x ∷ xs) a = (a.0, All-take P n xs a.1)

  pub Descending-take :
      (score : A → ℕ) (n : ℕ) (xs : List A) → Descending score xs → Descending score (take n xs)
  Descending-take score zero xs d = tt
  Descending-take score (suc n) [] d = tt
  Descending-take score (suc n) (x ∷ xs) d =
      (All-take (λ y. score y ≤ score x) n xs d.0, Descending-take score n xs d.1)

  pub Distinct-take :
      (score key : A → ℕ) (n : ℕ) (xs : List A)
      → Distinct score key xs
      → Distinct score key (take n xs)
  Distinct-take score key zero xs d = tt
  Distinct-take score key (suc n) [] d = tt
  Distinct-take score key (suc n) (x ∷ xs) d =
      (All-take (λ y. key y ≢ key x) n xs d.0, Distinct-take score key n xs d.1)

  -- What is not taken is behind enough others that score at least as much.
  pub Somewhere-take :
      (score : A → ℕ) (P : A → Type 0) (s n : ℕ) (xs : List A)
      → Descending score xs
      → ((x : A) → P x → s ≤ score x)
      → Somewhere P xs
      → Somewhere P (take n xs) ⊎ ((length (take n xs) ≡ n) × All (λ y. s ≤ score y) (take n xs))
  Somewhere-take score P s zero xs d f h = inr (refl, tt)
  Somewhere-take score P s (suc n) [] d f h = absurd h
  Somewhere-take score P s (suc n) (x ∷ xs) d f (inl h) = inl (inl h)
  Somewhere-take score P s (suc n) (x ∷ xs) d f (inr h) =
      further (Somewhere-take score P s n xs d.1 f h)
    where
      top : (ys : List A) → All (λ y. score y ≤ score x) ys → Somewhere P ys → s ≤ score x
      top = elim [
        | [] ↦ λ a q. absurd q
        | y ∷ (ys → ih) ↦ λ a q. elim q [ inl p ↦ omega (arith, f y p, a.0) | inr p ↦ ih a.1 p ]
      ]

      further :
          Somewhere P (take n xs) ⊎ ((length (take n xs) ≡ n) × All (λ y. s ≤ score y) (take n xs))
          → Somewhere P (x ∷ take n xs)
            ⊎ ((length (x ∷ take n xs) ≡ suc n) × All (λ y. s ≤ score y) (x ∷ take n xs))
      further (inl q) = inl (inr q)
      further (inr q) = inr (ap suc q.0, (top xs d.0 h, q.1))
