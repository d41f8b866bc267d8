-- ===== src/Rerankers/Examples.antt =====
-- Runs of the rerankers (backend/rerankers.py).
use paperless_iq.Prelude.{
  ℕ, String, ◌≡◌, refl, ap, true, false, Option, none, some, List, [], ◌∷◌, nat_eq, string_eq,
}
use paperless_iq.VectorStore.Results.{ChunkCandidate, SearchResult, assemble_doc_results}
use paperless_iq.VectorStore.Ranking.{Ranked}
use paperless_iq.Rerankers.Scores.{
  below_zero, from_zero, clamp, llm_scores, place_scores, http_scores, Reranker, llm, http, rerank,
}
use paperless_iq.Rerankers.Build.{
  RerankConfig, cohere_reranker, rerank_base_url, rerank_api_key, build_reranker,
}
use paperless_iq.Rerankers.Reranked.{maybe_rerank, reranked_search}
use paperless_iq.Rerankers.Keys.{endpoint, KeyStays, build_reranker-KeyStays}

-- An answer for two of three passages, out of range and out of order, and a bad index.
abbrev two_scored : Reranker
two_scored = http (
    some (
      (some 2, from_zero 250)
      ∷ (some 0, below_zero)
      ∷ (some 9, from_zero 50)
      ∷ (none, from_zero 50)
      ∷ []))

two_scored_aligned : rerank 100 two_scored 3 ≡ some (0 ∷ 0 ∷ 100 ∷ [])
unfolding rerank http_scores place_scores clamp
two_scored_aligned = refl

-- An LLM that answers too few scores.
llm_padded : rerank 100 (llm (some (from_zero 30 ∷ []))) 3 ≡ some (30 ∷ 0 ∷ 0 ∷ [])
unfolding rerank llm_scores clamp
llm_padded = refl

abbrev candidate : ℕ → ℕ → ChunkCandidate
candidate doc score = record {
  document_id = doc;
  title = "title";
  passage = some "passage";
  score = score;
}

abbrev three_candidates : List ChunkCandidate
three_candidates = candidate 3 40 ∷ candidate 5 70 ∷ candidate 8 10 ∷ []

abbrev link : ℕ → String
link d = "http://paperless/documents/"

reranked_search_example :
    (rs : Option (List ℕ)) × (maybe_rerank 100 (some two_scored) 3 ≡ some rs)
    × (results : List SearchResult) × (assemble_doc_results link three_candidates rs 20 5
        ≡ some results)
    × Ranked link three_candidates rs 20 5 results
reranked_search_example = reranked_search link 100 (some two_scored) three_candidates 20 5 tt

abbrev inherited : RerankConfig
inherited = record {
  rerank_enabled = true;
  rerank_method = "cohere_api";
  rerank_model = "rerank-v3";
  rerank_base_url = "";
  rerank_api_key = "";
  llm_provider = "openai";
  llm_credentials = "chat-key";
  openai_base_url = some "https://chat";
}

inherited_built :
    build_reranker (λ s. s) true false inherited
    ≡ some (cohere_reranker "https://chat" "rerank-v3" "chat-key")
unfolding build_reranker rerank_base_url rerank_api_key
inherited_built = refl

build_reranker-KeyStays_example : KeyStays (λ s. s) inherited "https://chat" "chat-key"
build_reranker-KeyStays_example =
    build_reranker-KeyStays (λ s. s) true false inherited "https://chat" "chat-key"
      (ap endpoint inherited_built)
