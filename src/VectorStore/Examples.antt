-- ===== src/VectorStore/Examples.antt =====
-- Runs of backend/vector_store.py.
use paperless_iq.Prelude.{
  ℕ, String, ◌≡◌, refl, none, some, List, [], ◌∷◌, arith, if◌then◌else◌, nat_eq, string_eq, ◌==◌,
}
use paperless_iq.Prelude.Dict.{get, put}
use paperless_iq.VectorStore.Chunks.{
  chunk_loop, chunk_text, carry_loop, join, flush, is_full, pack, stripped, chunk_text_sentences,
  chunk,
}
use paperless_iq.VectorStore.Reassembly.{Cut, chunk_text_cuts, chunk_text_stuck}
use paperless_iq.VectorStore.Packing.{Packed}
use paperless_iq.VectorStore.Sentences.{chunk_text_sentences_lem}
use paperless_iq.VectorStore.Results.{
  ChunkCandidate, SearchResult, score_of, is_better, see, best_chunks, insert_scored, best_first,
  search_result, assemble_doc_results, scored_chunks, assemble_chunk_results,
}

abbrev seven : List ℕ
seven = 11 ∷ 12 ∷ 13 ∷ 14 ∷ 15 ∷ 16 ∷ 17 ∷ []

seven_chunks :
    chunk_text 8 seven 3 1
    ≡ some ((11 ∷ 12 ∷ 13 ∷ []) ∷ (13 ∷ 14 ∷ 15 ∷ []) ∷ (15 ∷ 16 ∷ 17 ∷ []) ∷ (17 ∷ []) ∷ [])
unfolding chunk_text chunk_loop
seven_chunks = refl

chunk_text_cuts_example : Cut 3 1 seven (chunk_text 8 seven 3 1)
chunk_text_cuts_example = chunk_text_cuts 8 3 1 seven (omega arith) (omega arith) (omega arith)

seven_stuck : chunk_text 50 seven 3 3 ≡ none
seven_stuck = chunk_text_stuck 50 3 3 seven (omega arith) (omega arith)

-- Sentences end behind a 1, and a space is 0.
abbrev end_sentence : ℕ → List (List ℕ) → List (List ℕ)
end_sentence c [] = (c ∷ []) ∷ []
end_sentence c (s ∷ sents) = if c == 1 then (c ∷ []) ∷ s ∷ sents else (c ∷ s) ∷ sents

abbrev split_sentences : List ℕ → List (List ℕ)
split_sentences [] = []
split_sentences (c ∷ text) = end_sentence c (split_sentences text)

abbrev strip_spaces : List ℕ → List ℕ
strip_spaces [] = []
strip_spaces (c ∷ text) = if c == 0 then strip_spaces text else c ∷ text

-- Sentences of four, seven and twelve characters.
abbrev three_sentences : List ℕ
three_sentences =
    5 ∷ 5 ∷ 5 ∷ 1 ∷ 0 ∷ 6 ∷ 6 ∷ 6 ∷ 6 ∷ 6 ∷ 6 ∷ 1 ∷ 0 ∷ 7 ∷ 7 ∷ 7 ∷ 7 ∷ 7 ∷ 7 ∷ 7 ∷ 7 ∷ 7 ∷ 7 ∷ 7
    ∷ 1 ∷ []

-- With chunks of ten and an overlap of five, the second chunk has twelve characters.
three_sentences_chunks :
    chunk 30 split_sentences strip_spaces 0 three_sentences 10 5 "sentence"
    ≡ some (
        (5 ∷ 5 ∷ 5 ∷ 1 ∷ [])
        ∷ (5 ∷ 5 ∷ 5 ∷ 1 ∷ 0 ∷ 6 ∷ 6 ∷ 6 ∷ 6 ∷ 6 ∷ 6 ∷ 1 ∷ [])
        ∷ (7 ∷ 7 ∷ 7 ∷ 7 ∷ 7 ∷ 7 ∷ 7 ∷ 7 ∷ 7 ∷ 7 ∷ [])
        ∷ (7 ∷ 7 ∷ 7 ∷ 7 ∷ 7 ∷ 7 ∷ 1 ∷ [])
        ∷ (7 ∷ 1 ∷ [])
        ∷ [])
unfolding chunk chunk_text_sentences chunk_text chunk_loop pack flush join is_full carry_loop
three_sentences_chunks = refl

chunk_text_sentences_lem_example :
    Packed 30 0 10 5
      (stripped strip_spaces (split_sentences three_sentences))
      []
      (chunk_text_sentences 30 split_sentences strip_spaces 0 three_sentences 10 5)
chunk_text_sentences_lem_example =
    chunk_text_sentences_lem 30 split_sentences strip_spaces 0 three_sentences 10 5 (omega arith)
      (omega arith) (omega arith)

abbrev candidate : ℕ → ℕ → ChunkCandidate
candidate doc score = record {
  document_id = doc;
  title = "title";
  passage = some "passage";
  score = score;
}

abbrev five_candidates : List ChunkCandidate
five_candidates =
    candidate 3 40 ∷ candidate 5 70 ∷ candidate 3 90 ∷ candidate 0 99 ∷ candidate 8 10 ∷ []

abbrev link : ℕ → String
link d = "http://paperless/documents/"

abbrev result : ℕ → ℕ → SearchResult
result doc score = record {
  document_id = doc;
  document_title = "title";
  passage = "passage";
  score = score;
  deeplink_url = link doc;
}

five_results :
    assemble_doc_results link five_candidates none 20 5 ≡ some (result 3 90 ∷ result 5 70 ∷ [])
unfolding assemble_doc_results best_chunks score_of see is_better get put best_first insert_scored
    search_result
five_results = refl

five_chunks :
    assemble_chunk_results five_candidates (some (30 ∷ 10 ∷ 50 ∷ 40 ∷ 20 ∷ [])) 20
    ≡ some (candidate 3 50 ∷ candidate 0 40 ∷ candidate 3 30 ∷ candidate 8 20 ∷ [])
unfolding assemble_chunk_results scored_chunks score_of best_first insert_scored
five_chunks = refl
