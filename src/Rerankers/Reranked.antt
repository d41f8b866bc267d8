-- ===== src/Rerankers/Reranked.antt =====
-- A reranked search: the rerankers (backend/rerankers.py) under _maybe_rerank and
-- _assemble_doc_results (backend/vector_store.py).
use paperless_iq.Prelude.{
  ℕ, zero, suc, ◌/◌, String, ◌≡◌, refl, ap, ◌∙◌, inl, inr, Bool, true, false, Option, none, some,
  List, [], ◌∷◌, ◌++◌, arith, ltb, eqb, if◌then◌else◌, eqb_iff, Bool-cases, length, take, set,
  replicate, length-append, length-take, nat_eq, string_eq, ◌==◌, length-map,
}
use paperless_iq.VectorStore.Results.{ChunkCandidate, SearchResult, assemble_doc_results}
use paperless_iq.VectorStore.Ranking.{Ranked}
use paperless_iq.VectorStore.Search.{Aligned, assemble_doc_results_lem}
use paperless_iq.Rerankers.Scores.{
  Raw, from_zero, clamp, neutral, llm_scores, runtime_error, failed, logits, local_scores,
  place_scores, clamp_all, bedrock_scores, http_scores, Reranker, llm, local, bedrock, http, rerank,
}

abbrev asked : Option (List ℕ) → Option (Option (List ℕ))
asked none = none
asked (some scores) = some (some scores)

-- _maybe_rerank; the outer None is an exception.
unfoldable pub maybe_rerank : ℕ → Option Reranker → ℕ → Option (Option (List ℕ))
unfolding rerank
maybe_rerank one none n = some none
maybe_rerank one (some reranker) zero = some none
maybe_rerank one (some reranker) (suc n) = asked (rerank one reranker (suc n))

module _ {A : Type 0} where
  length-replicate : (n : ℕ) (a : A) → length (replicate n a) ≡ n
  length-replicate zero a = refl
  length-replicate (suc n) a = ap suc (length-replicate n a)

  length-set : (xs : List A) (i : ℕ) (a : A) → length (set xs i a) ≡ length xs
  length-set [] i a = refl
  length-set (x ∷ xs) zero a = refl
  length-set (x ∷ xs) (suc i) a = ap suc (length-set xs i a)

length-place_scores :
    (n : ℕ) (pairs : List (Option ℕ × ℕ)) (scores : List ℕ)
    → length (place_scores n pairs scores) ≡ length scores
unfolding place_scores
length-place_scores n [] scores = refl
length-place_scores n ((none, score) ∷ pairs) scores = length-place_scores n pairs scores
length-place_scores n ((some idx, score) ∷ pairs) scores =
    length-place_scores n pairs (if ltb idx n then set scores idx score else scores)
    ∙ either (ltb idx n)
  where
    either : (b : Bool) → length (if b then set scores idx score else scores) ≡ length scores
    either true = length-set scores idx score
    either false = refl

length-llm_scores :
    (one : ℕ) (scores : Option (List Raw)) (n : ℕ) → length (llm_scores one scores n) ≡ n
unfolding llm_scores neutral
length-llm_scores one none n = length-replicate n (one / 2)
length-llm_scores one (some scores) n =
    length-map (clamp one)
      (if length scores == n then scores else take n (scores ++ replicate n (from_zero 0)))
    ∙ aligned
  where
    aligned :
        length (if length scores == n then scores else take n (scores ++ replicate n (from_zero 0)))
        ≡ n
    aligned = elim (Bool-cases (eqb (length scores) n)) [
      | inl e ↦ rw e ((eqb_iff (length scores) n).0 e)
      | inr e ↦ rw e (
          omega (
            arith,
            length-take {0} n (scores ++ replicate n (from_zero 0)),
            length-append {0} scores (replicate n (from_zero 0)),
            length-replicate n (from_zero 0),
          ))
    ]

-- The local model is there and predicts a score for every pair.
abbrev pub Ready : Option Reranker → ℕ → Type 0
Ready (some (local runtime_error)) n = ⊥
Ready (some (local (logits scores))) n = length scores ≡ n
Ready reranker n = Unit {0}

asked_for :
    (one n : ℕ) (scores : List ℕ)
    → length scores ≡ n
    → (rs : Option (List ℕ)) × (asked (some scores) ≡ some rs) × Aligned rs n
asked_for one n scores e = (some scores, refl, omega (arith, e))

maybe_rerank-Aligned :
    (one : ℕ) (reranker : Option Reranker) (n : ℕ)
    → Ready reranker n
    → (rs : Option (List ℕ)) × (maybe_rerank one reranker n ≡ some rs) × Aligned rs n
unfolding maybe_rerank rerank local_scores bedrock_scores http_scores neutral
maybe_rerank-Aligned one none n ready = (none, refl, tt)
maybe_rerank-Aligned one (some reranker) zero ready = (none, refl, tt)
maybe_rerank-Aligned one (some (llm scores)) (suc n) ready =
    asked_for one (suc n) (llm_scores one scores (suc n)) (length-llm_scores one scores (suc n))
maybe_rerank-Aligned one (some (local runtime_error)) (suc n) ready = absurd ready
maybe_rerank-Aligned one (some (local failed)) (suc n) ready =
    asked_for one (suc n) (replicate (suc n) (one / 2)) (length-replicate (suc n) (one / 2))
maybe_rerank-Aligned one (some (local (logits scores))) (suc n) ready =
    asked_for one (suc n) scores ready
maybe_rerank-Aligned one (some (bedrock none)) (suc n) ready =
    asked_for one (suc n) (replicate (suc n) (one / 2)) (length-replicate (suc n) (one / 2))
maybe_rerank-Aligned one (some (bedrock (some results))) (suc n) ready =
    asked_for one (suc n) (place_scores (suc n) results (replicate (suc n) 0))
      (length-place_scores (suc n) results (replicate (suc n) 0) ∙ length-replicate (suc n) 0)
maybe_rerank-Aligned one (some (http none)) (suc n) ready =
    asked_for one (suc n) (replicate (suc n) (one / 2)) (length-replicate (suc n) (one / 2))
maybe_rerank-Aligned one (some (http (some pairs))) (suc n) ready =
    asked_for one (suc n) (place_scores (suc n) (clamp_all one pairs) (replicate (suc n) 0)) (
      length-place_scores (suc n) (clamp_all one pairs) (replicate (suc n) 0)
      ∙ length-replicate (suc n) 0)

-- With any reranker and whatever its model or service answers, a failure included, the reranked
-- search returns the best documents by the scores of that reranker, in order, cut and complete; for
-- the local one, when its package is there and it predicts a score for every passage.
pub reranked_search :
    (deeplink : ℕ → String) (one : ℕ) (reranker : Option Reranker)
    (candidates : List ChunkCandidate) (min_score top_n : ℕ)
    → Ready reranker (length candidates)
    → (rs : Option (List ℕ)) × (maybe_rerank one reranker (length candidates) ≡ some rs)
      × (results : List SearchResult) × (assemble_doc_results deeplink candidates rs min_score top_n
          ≡ some results)
      × Ranked deeplink candidates rs min_score top_n results
reranked_search deeplink one reranker candidates min_score top_n ready =
    let r = maybe_rerank-Aligned one reranker (length candidates) ready in
    let found = assemble_doc_results_lem deeplink candidates r.0 min_score top_n r.2 in
    (r.0, r.1, found.0, found.1, found.2)
