-- ===== src/VectorStore/Results.antt =====
-- _assemble_doc_results, _assemble_chunk_results and _deeplink (backend/vector_store.py). A score is
-- a natural number: the code only compares scores. A document id that is missing or None is 0, which
-- is falsy too. None is the IndexError of a list of rerank scores that is too short.
use paperless_iq.Prelude.{
  ℕ, suc, String, Bool, true, Option, none, some, List, [], ◌∷◌, map, ltb, leb, if◌then◌else◌,
  or_else, take, get_elem?, keep, nat_eq, string_eq, ◌==◌,
}
use paperless_iq.Prelude.Dict.{Dict, get, put}

pub record ChunkCandidate : Type 0 where
  pub document_id : ℕ
  pub title : String
  pub passage : Option String
  pub score : ℕ

pub record SearchResult : Type 0 where
  pub document_id : ℕ
  pub document_title : String
  pub passage : String
  pub score : ℕ
  pub deeplink_url : String

-- The value in `seen`.
pub record Best : Type 0 where
  pub score : ℕ
  pub passage : Option String
  pub title : String

-- `rerank_scores[i] if rerank_scores is not None else c["score"]`
unfoldable pub score_of : Option (List ℕ) → ℕ → ChunkCandidate → Option ℕ
score_of none i c = some c.score
score_of (some scores) i c = get_elem? scores i

abbrev pub then_score {ℓ} : {B : Type ℓ} → Option ℕ → (ℕ → Option B) → Option B
then_score none f = none
then_score (some score) f = f score

-- `doc_id not in seen or score > seen[doc_id]["score"]`
unfoldable pub is_better : Option Best → ℕ → Bool
is_better none score = true
is_better (some best) score = ltb best.score score

unfoldable pub see : Dict ℕ Best → ChunkCandidate → ℕ → Dict ℕ Best
unfolding is_better get put
see seen c score =
    if is_better (get seen c.document_id) score
    then put seen c.document_id (record { score = score; passage = c.passage; title = c.title })
    else seen

-- The loop over the candidates.
unfoldable pub best_chunks :
    Option (List ℕ) → ℕ → List ChunkCandidate → Dict ℕ Best → Option (Dict ℕ Best)
unfolding score_of see
best_chunks rerank_scores i [] seen = some seen
best_chunks rerank_scores i (c ∷ candidates) seen =
    let skipped = best_chunks rerank_scores (suc i) candidates seen in
    if c.document_id == 0
    then skipped
    else then_score (score_of rerank_scores i c)
        λ score. best_chunks rerank_scores (suc i) candidates (see seen c score)

-- `sorted(..., reverse=True)` by a score, which keeps the order of equal scores.
unfoldable pub insert_scored {ℓ} : {A : Type ℓ} → (A → ℕ) → A → List A → List A
insert_scored score x [] = x ∷ []
insert_scored score x (y ∷ ys) =
    let rest = insert_scored score x ys in if leb (score y) (score x) then x ∷ y ∷ ys else y ∷ rest

unfoldable pub best_first {ℓ} : {A : Type ℓ} → (A → ℕ) → List A → List A
unfolding insert_scored
best_first score [] = []
best_first score (x ∷ xs) = insert_scored score x (best_first score xs)

module _ (deeplink : ℕ → String) where
  unfoldable pub search_result : ℕ × Best → SearchResult
  search_result (doc_id, info) = record {
    document_id = doc_id;
    document_title = info.title;
    passage = or_else info.passage "";
    score = info.score;
    deeplink_url = deeplink doc_id;
  }

  abbrev pub then_results :
      Option (Dict ℕ Best) → (Dict ℕ Best → List SearchResult) → Option (List SearchResult)
  then_results none f = none
  then_results (some seen) f = some (f seen)

  unfoldable pub assemble_doc_results :
      List ChunkCandidate → Option (List ℕ) → ℕ → ℕ → Option (List SearchResult)
  unfolding best_chunks best_first search_result
  assemble_doc_results candidates rerank_scores min_score top_n =
      then_results (best_chunks rerank_scores 0 candidates []) λ seen.
        take top_n (
          map search_result
            (keep (λ e. leb min_score e.1.score) (best_first (λ e. e.1.score) seen)))

abbrev put_first : ChunkCandidate → Option (List ChunkCandidate) → Option (List ChunkCandidate)
put_first c none = none
put_first c (some rest) = some (c ∷ rest)

abbrev sorted_chunks : Option (List ChunkCandidate) → Option (List ChunkCandidate)
sorted_chunks none = none
sorted_chunks (some chunks) = some (best_first (λ c. c.score) chunks)

-- `{**c, "score": score}`
unfoldable pub scored_chunks :
    Option (List ℕ) → ℕ → List ChunkCandidate → ℕ → Option (List ChunkCandidate)
unfolding score_of
scored_chunks rerank_scores i [] min_score = some []
scored_chunks rerank_scores i (c ∷ candidates) min_score =
    let rest = scored_chunks rerank_scores (suc i) candidates min_score in
    then_score (score_of rerank_scores i c)
      λ score. if ltb score min_score then rest else put_first (record c { score = score }) rest

unfoldable pub assemble_chunk_results :
    List ChunkCandidate → Option (List ℕ) → ℕ → Option (List ChunkCandidate)
unfolding scored_chunks best_first
assemble_chunk_results candidates none min_score = scored_chunks none 0 candidates min_score
assemble_chunk_results candidates (some scores) min_score =
    sorted_chunks (scored_chunks (some scores) 0 candidates min_score)
