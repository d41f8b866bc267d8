-- ===== src/Analyzer/Prompts.antt =====
-- resolve_prompt_template, truncate_to_context_window and _build_suggestion (backend/analyzer.py).
use paperless_iq.Prelude.{
  ℕ, String, Option, none, some, List, [], leb, if◌then◌else◌, or_else, length, take, Eq, nat_eq,
  string_eq, ◌==◌,
}
use paperless_iq.Prelude.Dict.{Dict, get}
use paperless_iq.Approval.Py.{Value}
use paperless_iq.Approval.Rows.{pending, AnalysisMode, absent, MetadataSuggestion}

-- The templates of PaperlessIQConfig.
pub record Templates : Type 0 where
  pub per_doctype_prompt_templates : Dict ℕ String
  pub per_field_prompt_templates : Dict String String
  pub global_prompt_template : String

-- A text that is there and not empty, or what follows.
unfoldable pub or_text : Option String → String → String
or_text none rest = rest
or_text (some s) rest = if s == "" then rest else s

abbrev pub looked_up : {K : Type 0} ⦃e : Eq K⦄ → Dict K String → Option K → Option String
looked_up d none = none
looked_up d (some k) = get d k

unfoldable pub resolve_prompt_template : Templates → Option ℕ → Option String → String
unfolding or_text
resolve_prompt_template config document_type_id field =
    or_text (looked_up config.per_doctype_prompt_templates document_type_id)
      (or_text (looked_up config.per_field_prompt_templates field) config.global_prompt_template)

-- The text is a list of characters.
unfoldable pub truncate_to_context_window {ℓ} : {C : Type ℓ} → List C → ℕ → List C
truncate_to_context_window text max_chars =
    if leb (length text) max_chars then text else take max_chars text

-- What the code reads of the parsed answer; none where the key is missing.
pub record Parsed : Type 0 where
  pub title : Option String
  pub tags : Option (List String)
  pub correspondent : Option String
  pub document_type : Option String
  pub storage_path : Option String
  pub custom_fields : Option (Dict String Value)

-- `x or None`
unfoldable pub text_or_none : Option String → Option String
text_or_none none = none
text_or_none (some s) = if s == "" then none else some s

unfoldable pub build_suggestion :
    ℕ → ℕ → ℕ → Parsed → String → String → AnalysisMode → String → String → MetadataSuggestion
unfolding text_or_none
build_suggestion id now document_id parsed llm_provider llm_model analysis_mode prompt_used
      raw_llm_response =
    record {
      id = id;
      document_id = document_id;
      status = pending;
      created_at = now;
      title = text_or_none parsed.title;
      tags = or_else parsed.tags [];
      correspondent = text_or_none parsed.correspondent;
      document_type = text_or_none parsed.document_type;
      storage_path = text_or_none parsed.storage_path;
      custom_fields = or_else parsed.custom_fields [];
      llm_provider = llm_provider;
      llm_model = llm_model;
      analysis_mode = analysis_mode;
      prompt_used = prompt_used;
      raw_llm_response = raw_llm_response;
      extracted_content = none;
      original_ocr_content = none;
      evidence_json = absent;
    }
