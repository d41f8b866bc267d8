-- ===== src/Grooming/Selection.antt =====
-- The first half of _enqueue_candidates (backend/grooming.py): the cap on documents and the grouping
-- of their actions. A distance is a number, of which only the order counts. The sort by `-distance`
-- is that of backend/vector_store.py by a score, greatest first and stable.
use mathlib.Core.List.{Perm}
use paperless_iq.Prelude.{take_all}
use paperless_iq.Prelude.{
  ℕ, zero, suc, ◌+◌, ◌-◌, ◌≤◌, ◌<◌, min, ◌≡◌, refl, sym, ap, ◌∙◌, inl, inr, true, false, List, [],
  ◌∷◌, ◌++◌, arith, leb, if◌then◌else◌, Bool-cases, length, take, keep, length-append, length-take,
  nat_eq, string_eq, ◌==◌, contains,
}
use paperless_iq.VectorStore.Results.{best_first}
use paperless_iq.VectorStore.Sorting.{Descending, best_first-perm, Descending-best_first}

contains-take :
    (n : ℕ) (xs : List ℕ) (x : ℕ) → contains xs x ≡ false → contains (take n xs) x ≡ false
contains-take zero xs x h = refl
contains-take (suc n) [] x h = refl
contains-take (suc n) (y ∷ xs) x h = ground (arith, contains-take n xs x)

take-append_full : (n : ℕ) (xs : List ℕ) (x : ℕ) → n ≤ length xs → take n (xs ++ x ∷ []) ≡ take n xs
take-append_full zero xs x h = refl
take-append_full (suc n) [] x h = absurd (omega arith)
take-append_full (suc n) (y ∷ xs) x h = ap (◌∷◌ y) (take-append_full n xs x (omega arith))

module _ {ℓ} {C : Type ℓ} (doc_of : C → ℕ) where
  -- `sorted(candidates, key=lambda c: -c["distance"])`
  unfoldable pub sort_candidates : (C → ℕ) → List C → List C
  sort_candidates distance candidates = best_first distance candidates

  -- The loop that fills `selected_docs`.
  unfoldable pub select_docs : ℕ → List ℕ → List C → List ℕ
  select_docs cap selected [] = selected
  select_docs cap selected (c ∷ cs) =
      let same = select_docs cap selected cs in
      let more = select_docs cap (selected ++ doc_of c ∷ []) cs in
      if contains selected (doc_of c)
      then same
      else if leb cap (length selected)
      then same
      else more

  -- `by_doc`, for a selected document.
  unfoldable pub by_doc : List C → ℕ → List C
  by_doc cs d = keep (λ c. doc_of c == d) cs

  -- `len({c["document_id"] for c in candidates})`
  unfoldable pub documents : List ℕ → List C → List ℕ
  documents seen [] = seen
  documents seen (c ∷ cs) =
      let same = documents seen cs in
      let more = documents (seen ++ doc_of c ∷ []) cs in
      if contains seen (doc_of c) then same else more

  -- `summary["capped"]`
  unfoldable pub capped : ℕ → List C → ℕ
  unfolding select_docs documents
  capped cap cs = length (documents [] cs) - length (select_docs cap [] cs)

  module _ (cap : ℕ) (selected seen : List ℕ) (c : C) (h : selected ≡ take cap seen) where
    size : length selected ≡ min cap (length seen)
    size = ap length h ∙ length-take cap seen

    all_taken : length selected < cap → selected ≡ seen
    all_taken l = h ∙ take_all cap seen (omega (arith, size, l))

    -- What the loop knows of the ids, on each of its branches.
    old_taken :
        contains seen (doc_of c) ≡ true
        → contains selected (doc_of c) ≡ false
        → leb cap (length selected) ≡ true
    old_taken s n = elim (Bool-cases (leb cap (length selected))) [
      | inl e ↦ e
      | inr e ↦ absurd (cc (ap (λ l. contains l (doc_of c)) (all_taken (ground (arith, e))), s, n))
    ]

    new_taken : contains seen (doc_of c) ≡ false → contains selected (doc_of c) ≡ false
    new_taken s = ap (λ l. contains l (doc_of c)) h ∙ contains-take cap seen (doc_of c) s

    full_taken : leb cap (length selected) ≡ true → selected ≡ take cap (seen ++ doc_of c ∷ [])
    full_taken e = h ∙ sym (take-append_full cap seen (doc_of c) (ground (arith, size, e)))

    more_taken :
        leb cap (length selected) ≡ false
        → selected ++ doc_of c ∷ [] ≡ take cap (seen ++ doc_of c ∷ [])
    more_taken e =
        ap (λ l. l ++ doc_of c ∷ []) (all_taken (ground (arith, e)))
        ∙ sym (
            take_all cap (seen ++ doc_of c ∷ [])
              (ground (arith, size, e, length-append seen (doc_of c ∷ []))))

  select_docs-take :
      (cap : ℕ) (selected seen : List ℕ) (cs : List C)
      → selected ≡ take cap seen
      → select_docs cap selected cs ≡ take cap (documents seen cs)
  unfolding select_docs documents
  select_docs-take cap selected seen [] h = h
  select_docs-take cap selected seen (c ∷ cs) h = elim (Bool-cases (contains seen (doc_of c))) [
    | inl s ↦ elim (Bool-cases (contains selected (doc_of c))) [
      | inl o ↦ rw (s, o) (select_docs-take cap selected seen cs h)
      | inr o ↦
          rw (s, o, old_taken cap selected seen c h s o) (select_docs-take cap selected seen cs h)
    ]
    | inr s ↦ elim (Bool-cases (leb cap (length selected))) [
      | inl e ↦
          rw (s, new_taken cap selected seen c h s, e)
            (select_docs-take cap selected (seen ++ doc_of c ∷ []) cs
              (full_taken cap selected seen c h e))
      | inr e ↦
          rw (s, new_taken cap selected seen c h s, e)
            (select_docs-take cap (selected ++ doc_of c ∷ []) (seen ++ doc_of c ∷ []) cs
              (more_taken cap selected seen c h e))
    ]
  ]

  nothing_taken : (cap : ℕ) → take {A = ℕ} cap [] ≡ []
  nothing_taken zero = refl
  nothing_taken (suc cap) = refl

  -- The documents of a scan's suggestions are the first `cap` of all its documents, when these are
  -- listed by their candidates in an order of the candidates in which none is behind one of a smaller
  -- distance; `capped` counts the others.
  pub select_docs_lem :
      (distance : C → ℕ) (cap : ℕ) (candidates : List C)
      → (cs : List C) × Perm cs candidates
        × Descending distance cs
        × (select_docs cap [] (sort_candidates distance candidates) ≡ take cap (documents [] cs))
        × (length (select_docs cap [] (sort_candidates distance candidates))
              + capped cap (sort_candidates distance candidates)
            ≡ length (documents [] cs))
  unfolding capped sort_candidates
  select_docs_lem distance cap candidates =
      let cs = best_first distance candidates in
      let e = select_docs-take cap [] [] cs (sym (nothing_taken cap)) in
      (
        cs,
        best_first-perm distance candidates,
        Descending-best_first distance candidates,
        e,
        omega (arith, ap length e, length-take cap (documents [] cs)),
      )
