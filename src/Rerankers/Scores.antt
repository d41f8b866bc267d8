-- ===== src/Rerankers/Scores.antt =====
-- The scores of the rerankers (backend/rerankers.py). A score in [0, 1] is a natural number up to
-- `one`; what a model or a service answers can lie below and above. None is a failed request, and the
-- requests themselves are parameters.
use paperless_iq.Prelude.{
  ℕ, zero, suc, ◌/◌, min, Option, none, some, List, [], ◌∷◌, ◌++◌, map, ltb, if◌then◌else◌, length,
  take, set, replicate, nat_eq, string_eq, ◌==◌,
}

-- A number from outside; an LLM's 10 is written like the 1.0 of the others.
pub data Raw : Type 0 where
  below_zero : Raw
  from_zero : ℕ → Raw

-- `max(0.0, min(1.0, score))`
unfoldable pub clamp : ℕ → Raw → ℕ
clamp one below_zero = 0
clamp one (from_zero n) = min one n

-- `[0.5] * len(passages)`
unfoldable pub neutral : ℕ → ℕ → List ℕ
neutral one n = replicate n (one / 2)

-- LLMReranker.rerank, after the answer is read.
unfoldable pub llm_scores : ℕ → Option (List Raw) → ℕ → List ℕ
unfolding neutral clamp
llm_scores one none n = neutral one n
llm_scores one (some scores) n =
    map (clamp one)
      (if length scores == n then scores else take n (scores ++ replicate n (from_zero 0)))

-- What LocalCrossEncoderReranker's executor gives: RuntimeError, another exception, or the scores.
pub data Predicted : Type 0 where
  runtime_error failed : Predicted
  logits : List ℕ → Predicted

-- The scores after the sigmoid; None is the RuntimeError.
unfoldable pub local_scores : ℕ → Predicted → ℕ → Option (List ℕ)
unfolding neutral
local_scores one runtime_error n = none
local_scores one failed n = some (neutral one n)
local_scores one (logits scores) n = some scores

-- `scores[idx] = ...`; an index of None is no int or a negative one.
unfoldable pub place_scores : ℕ → List (Option ℕ × ℕ) → List ℕ → List ℕ
place_scores n [] scores = scores
place_scores n ((none, score) ∷ pairs) scores = place_scores n pairs scores
place_scores n ((some idx, score) ∷ pairs) scores =
    place_scores n pairs (if ltb idx n then set scores idx score else scores)

-- BedrockReranker.rerank, whose scores are in [0, 1].
unfoldable pub bedrock_scores : ℕ → Option (List (Option ℕ × ℕ)) → ℕ → List ℕ
unfolding neutral place_scores
bedrock_scores one none n = neutral one n
bedrock_scores one (some results) n = place_scores n results (replicate n 0)

abbrev pub clamp_all : ℕ → List (Option ℕ × Raw) → List (Option ℕ × ℕ)
clamp_all one [] = []
clamp_all one ((idx, score) ∷ pairs) = (idx, clamp one score) ∷ clamp_all one pairs

-- _BaseHTTPReranker.rerank, with the pairs that _extract finds.
unfoldable pub http_scores : ℕ → Option (List (Option ℕ × Raw)) → ℕ → List ℕ
unfolding neutral place_scores clamp
http_scores one none n = neutral one n
http_scores one (some pairs) n = place_scores n (clamp_all one pairs) (replicate n 0)

-- The reranker with what its request gives.
pub data Reranker : Type 0 where
  llm : Option (List Raw) → Reranker
  local : Predicted → Reranker
  bedrock : Option (List (Option ℕ × ℕ)) → Reranker
  http : Option (List (Option ℕ × Raw)) → Reranker

-- `rerank`, with `if not passages: return []`; None is the RuntimeError.
unfoldable pub rerank : ℕ → Reranker → ℕ → Option (List ℕ)
unfolding llm_scores local_scores bedrock_scores http_scores
rerank one reranker zero = some []
rerank one (llm scores) (suc n) = some (llm_scores one scores (suc n))
rerank one (local predicted) (suc n) = local_scores one predicted (suc n)
rerank one (bedrock results) (suc n) = some (bedrock_scores one results (suc n))
rerank one (http pairs) (suc n) = some (http_scores one pairs (suc n))
