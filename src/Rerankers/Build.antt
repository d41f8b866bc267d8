-- ===== src/Rerankers/Build.antt =====
-- _rerank_base_url, _rerank_api_key and build_reranker (backend/rerankers.py). Credentials are texts.
-- Whether a provider is there is a parameter.
use paperless_iq.Prelude.{
  String, Bool, ◌&&◌, ◌||◌, not, Option, none, some, if◌then◌else◌, or_else, nat_eq, string_eq,
  ◌==◌,
}

pub record RerankConfig : Type 0 where
  pub rerank_enabled : Bool
  pub rerank_method : String
  pub rerank_model : String
  pub rerank_base_url : String
  pub rerank_api_key : String
  pub llm_provider : String
  pub llm_credentials : String
  pub openai_base_url : Option String

pub data Built : Type 0 where
  llm_reranker bedrock_reranker : Built
  local_reranker : String → Built
  -- The URL, the model and the key.
  cohere_reranker tei_reranker : String → String → String → Built

module _ (strip : String → String) where
  unfoldable pub rerank_base_url : RerankConfig → String
  rerank_base_url config =
      let own = strip config.rerank_base_url in
      if not (own == "")
      then own
      else if config.llm_provider == "openai"
      then strip (or_else config.openai_base_url "")
      else ""

  unfoldable pub rerank_api_key : RerankConfig → String
  rerank_api_key config =
      if not (config.rerank_api_key == "")
      then config.rerank_api_key
      else if strip config.rerank_base_url == "" && config.llm_provider == "openai"
      then config.llm_credentials
      else ""

  -- None is no reranking.
  unfoldable pub build_reranker : Bool → Bool → RerankConfig → Option Built
  unfolding rerank_base_url rerank_api_key
  build_reranker has_provider has_bedrock config =
      let url = rerank_base_url config in
      if not config.rerank_enabled
      then none
      else if config.rerank_method == "llm"
      then if has_provider then some llm_reranker else none
      else if config.rerank_method == "local"
      then some (local_reranker config.rerank_model)
      else if config.rerank_method == "api"
      then if config.llm_provider == "bedrock" && has_bedrock then some bedrock_reranker else none
      else if config.rerank_method == "cohere_api" || config.rerank_method == "tei"
      then if url == ""
        then none
        else if config.rerank_method == "cohere_api"
        then some (cohere_reranker url config.rerank_model (rerank_api_key config))
        else some (tei_reranker url config.rerank_model (rerank_api_key config))
      else none
