-- ===== src/VectorStore/Search.antt =====
-- The results of _assemble_doc_results (backend/vector_store.py) from the candidates.
use paperless_iq.Prelude.{
  ℕ, zero, suc, ◌+◌, ◌≤◌, ◌<◌, String, ◌≡◌, refl, ap, inl, inr, Option, none, some, List, [], ◌∷◌,
  map, arith, leb, eqb, Bool-cases, length, take, get_elem?, keep, nat_eq, string_eq,
}
use paperless_iq.Prelude.Dict.{Dict}
use paperless_iq.VectorStore.Results.{
  ChunkCandidate, SearchResult, Best, score_of, see, best_chunks, best_first, search_result,
  then_results, assemble_doc_results,
}
use paperless_iq.VectorStore.Ranking.{Ranked, Ranked-seen}

-- There is a rerank score for every candidate.
abbrev pub Aligned : Option (List ℕ) → ℕ → Type 0
Aligned none n = Unit
Aligned (some scores) n = n ≤ length scores

get_elem?_here :
    (scores : List ℕ) (i : ℕ) → i < length scores → (x : ℕ) × (get_elem? scores i ≡ some x)
get_elem?_here [] i h = absurd (omega arith)
get_elem?_here (x ∷ scores) zero h = (x, refl)
get_elem?_here (x ∷ scores) (suc i) h = get_elem?_here scores i (omega arith)

scores_there :
    (rerank_scores : Option (List ℕ)) (i n : ℕ) (c : ChunkCandidate)
    → Aligned rerank_scores (i + suc n)
    → (x : ℕ) × (score_of rerank_scores i c ≡ some x)
unfolding score_of
scores_there none i n c a = (c.score, refl)
scores_there (some scores) i n c a = get_elem?_here scores i (omega arith)

Aligned-next :
    (rerank_scores : Option (List ℕ)) (i n : ℕ)
    → Aligned rerank_scores (i + suc n)
    → Aligned rerank_scores (suc i + n)
Aligned-next none i n a = tt
Aligned-next (some scores) i n a = omega arith

best_chunks_returns :
    (rerank_scores : Option (List ℕ)) (i : ℕ) (candidates : List ChunkCandidate)
    (seen : Dict ℕ Best)
    → Aligned rerank_scores (i + length candidates)
    → (final : Dict ℕ Best) × (best_chunks rerank_scores i candidates seen ≡ some final)
unfolding best_chunks
best_chunks_returns rerank_scores i [] seen a = (seen, refl)
best_chunks_returns rerank_scores i (c ∷ candidates) seen a =
    elim (Bool-cases (eqb c.document_id 0)) [
      | inl e ↦ rw e (
          best_chunks_returns rerank_scores (suc i) candidates seen
            (Aligned-next rerank_scores i (length candidates) a))
      | inr e ↦
          let q = scores_there rerank_scores i (length candidates) c a in
          rw (e, q.1)
            (best_chunks_returns rerank_scores (suc i) candidates (see seen c q.0)
              (Aligned-next rerank_scores i (length candidates) a))
    ]

Aligned-start :
    (rerank_scores : Option (List ℕ)) (n : ℕ)
    → Aligned rerank_scores n
    → Aligned rerank_scores (0 + n)
Aligned-start none n a = tt
Aligned-start (some scores) n a = omega arith

-- With no rerank scores or one for every candidate, `assemble_doc_results` returns at most `top_n`
-- results, the highest score first and no document twice. Each is the chunk with the highest score
-- of its document, at least `min_score`; and a document that has such a chunk is left out only
-- behind `top_n` results that score at least as much.
pub assemble_doc_results_lem :
    (deeplink : ℕ → String) (candidates : List ChunkCandidate) (rerank_scores : Option (List ℕ))
    (min_score top_n : ℕ)
    → Aligned rerank_scores (length candidates)
    → (results : List SearchResult) × (assemble_doc_results deeplink candidates rerank_scores
          min_score top_n
        ≡ some results)
      × Ranked deeplink candidates rerank_scores min_score top_n results
unfolding assemble_doc_results
assemble_doc_results_lem deeplink candidates rerank_scores min_score top_n a =
    let b =
      best_chunks_returns rerank_scores 0 candidates []
        (Aligned-start rerank_scores (length candidates) a) in
    (
      take top_n (
          map (search_result deeplink)
            (keep (λ e. leb min_score e.1.score) (best_first (λ e. e.1.score) b.0))),
      ap
          (λ o. then_results deeplink o λ seen. take top_n (
            map (search_result deeplink)
              (keep (λ e. leb min_score e.1.score) (best_first (λ e. e.1.score) seen))))
          b.1,
      Ranked-seen deeplink candidates rerank_scores min_score top_n b.0 b.1,
    )
