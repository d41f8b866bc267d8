-- ===== src/Rerankers/Keys.antt =====
-- Where the keys of the HTTP rerankers travel (backend/rerankers.py).
use mathlib.Core.Path.{subst}
use paperless_iq.Prelude.{
  String, ◌≡◌, refl, sym, ◌∙◌, ◌⊎◌, inl, inr, Bool, Option, none, some, arith, Bool-cases, or_else,
  nat_eq, string_eq, ◌==◌, eq_of_==,
}
use paperless_iq.Rerankers.Build.{
  RerankConfig, Built, llm_reranker, bedrock_reranker, local_reranker, cohere_reranker,
  tei_reranker, rerank_base_url, rerank_api_key, build_reranker,
}

-- The URL that a reranker calls, and its key.
abbrev pub endpoint : Option Built → Option (String × String)
endpoint none = none
endpoint (some llm_reranker) = none
endpoint (some bedrock_reranker) = none
endpoint (some (local_reranker model)) = none
endpoint (some (cohere_reranker url model key)) = some (url, key)
endpoint (some (tei_reranker url model key)) = some (url, key)

module _ (strip : String → String) where
  build_endpoint :
      (p b : Bool) (config : RerankConfig)
      → (endpoint (build_reranker strip p b config) ≡ none)
        ⊎ (endpoint (build_reranker strip p b config)
            ≡ some (rerank_base_url strip config, rerank_api_key strip config))
  unfolding build_reranker
  build_endpoint p b config = ground arith

  -- The key of its own, none, or the chat key for the host of the chat provider.
  abbrev pub KeyStays : RerankConfig → String → String → Type 0
  KeyStays config url key =
      (key ≡ config.rerank_api_key)
      ⊎ ((key ≡ "")
          ⊎ ((url ≡ strip (or_else config.openai_base_url "")) × (config.llm_provider ≡ "openai")))

  inherits :
      (config : RerankConfig)
      → KeyStays config (rerank_base_url strip config) (rerank_api_key strip config)
  unfolding rerank_base_url rerank_api_key
  inherits config = elim (Bool-cases (config.rerank_api_key == "")) [
    | inr e ↦ inl (rw e refl)
    | inl e ↦ elim (Bool-cases (strip config.rerank_base_url == "")) [
      | inr f ↦ inr (inl (rw (e, f) refl))
      | inl f ↦ elim (Bool-cases (config.llm_provider == "openai")) [
        | inr g ↦ inr (inl (rw (e, f, g) refl))
        | inl g ↦ inr (inr (rw (f, g) refl, eq_of_== config.llm_provider "openai" g))
      ]
    ]
  ]

  -- The reranker that `build_reranker` makes sends a URL its own rerank key or none, or the chat key
  -- only when that URL is the base URL of the OpenAI chat provider.
  pub build_reranker-KeyStays :
      (has_provider has_bedrock : Bool) (config : RerankConfig) (url key : String)
      → endpoint (build_reranker strip has_provider has_bedrock config) ≡ some (url, key)
      → KeyStays config url key
  build_reranker-KeyStays p b config url key h = elim (build_endpoint p b config) [
    | inl n ↦ absurd (cc (n, h))
    | inr e ↦
        let q : some (rerank_base_url strip config, rerank_api_key strip config) ≡ some (url, key) =
          sym e ∙ h in
        let u : rerank_base_url strip config ≡ url = cc q in
        let k : rerank_api_key strip config ≡ key = cc q in
        subst (λ x. KeyStays config x key) u
          (subst (KeyStays config (rerank_base_url strip config)) k (inherits config))
  ]
