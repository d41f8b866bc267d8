-- ===== src/Analyzer/Examples.antt =====
-- Runs of backend/analyzer.py.
use paperless_iq.Prelude.{
  ℕ, String, ◌≡◌, refl, false, Option, none, some, List, [], ◌∷◌, if◌then◌else◌, nat_eq, string_eq,
  ◌==◌,
}
use paperless_iq.Prelude.Dict.{get, put}
use paperless_iq.Approval.Py.{Py, Value, null, boolean, text, number, structure, whole}
use paperless_iq.Approval.Entities.{
  EntityType, tags, correspondents, allow_new, existing_only, PolicyConfig, Item,
}
use paperless_iq.Approval.CustomFields.{is_empty}
use paperless_iq.Approval.Rows.{pending, ocr, absent, MetadataSuggestion}
use paperless_iq.Analyzer.Prompts.{
  Templates, or_text, resolve_prompt_template, truncate_to_context_window, Parsed, text_or_none,
  build_suggestion,
}
use paperless_iq.Analyzer.Policy.{
  Prefetched, existing, is_known, policed_tags, policed_name, field_lookup, label_lookup,
  valid_value, valid_fields, apply_creation_policy,
}
use paperless_iq.Analyzer.Policed.{Policed, apply_creation_policy_lem}

abbrev shown : Value → String
shown null = "None"
shown (boolean b) = "True"
shown (text s) = s
shown (number s) = s
shown (structure s) = s

-- A `lower` that knows three words.
abbrev lower_words : String → String
lower_words s =
    if s == "Invoice"
    then "invoice"
    else if s == "ACME"
    then "acme"
    else if s == "High"
    then "high"
    else s

abbrev python : Py ℕ
python = record {
  lower = lower_words;
  strip = λ s. s;
  comma_to_dot = λ s. s;
  clip = λ n s. s;
  render = shown;
  same_value = λ a b. false;
  dumps_tags = λ ts. "";
  dumps_fields = λ fs. "";
  parse_float = λ s. none;
  fixed2 = λ x. "";
  show_float = λ x. "";
  truncate = λ x. whole "";
}

abbrev server_names : EntityType → Option (List String)
server_names tags = some ("invoice" ∷ "tax" ∷ [])
server_names correspondents = some ("acme" ∷ [])
server_names t = none

abbrev urgency : Item
urgency = record {
  id = 4;
  name = "urgency";
  data_type = "select";
  options = (some "a1", some "High") ∷ (some "b2", some "low") ∷ [];
}

abbrev parsed : Parsed
parsed = record {
  title = some "Invoice of May";
  tags = some ("Invoice" ∷ "surprise" ∷ []);
  correspondent = some "ACME";
  document_type = some "";
  storage_path = some "archive";
  custom_fields = some (("urgency", text "high") ∷ ("note", text "x") ∷ []);
}

abbrev suggested : MetadataSuggestion
suggested = record {
  id = 1;
  document_id = 7;
  status = pending;
  created_at = 100;
  title = some "Invoice of May";
  tags = "Invoice" ∷ "surprise" ∷ [];
  correspondent = some "ACME";
  document_type = none;
  storage_path = some "archive";
  custom_fields = ("urgency", text "high") ∷ ("note", text "x") ∷ [];
  llm_provider = "ollama";
  llm_model = "llama3";
  analysis_mode = ocr;
  prompt_used = "prompt";
  raw_llm_response = "answer";
  extracted_content = none;
  original_ocr_content = none;
  evidence_json = absent;
}

suggested_built :
    build_suggestion 1 100 7 parsed "ollama" "llama3" ocr "prompt" "answer" ≡ suggested
unfolding build_suggestion text_or_none
suggested_built = refl

abbrev policies : PolicyConfig
policies = record {
  tag_creation_policy = existing_only;
  correspondent_creation_policy = existing_only;
  doctype_creation_policy = existing_only;
  storage_path_creation_policy = allow_new;
}

abbrev prefetched : Prefetched
prefetched = record {
  all_tags = none;
  all_correspondents = none;
  all_document_types = none;
  all_storage_paths = none;
  custom_field_defs = urgency ∷ [];
}

abbrev policed : MetadataSuggestion
policed = record suggested {
  tags = "Invoice" ∷ [];
  custom_fields = ("urgency", text "High") ∷ ("note", text "x") ∷ [];
}

policies_applied :
    apply_creation_policy python server_names suggested policies prefetched ≡ some policed
unfolding apply_creation_policy policed_tags policed_name existing is_known valid_fields valid_value
    field_lookup label_lookup is_empty get put
policies_applied = refl

apply_creation_policy_lem_example :
    Policed python server_names suggested policed policies prefetched
apply_creation_policy_lem_example =
    apply_creation_policy_lem python server_names suggested policed policies prefetched
      policies_applied

abbrev templates : Templates
templates = record {
  per_doctype_prompt_templates = (3, "") ∷ (4, "contract") ∷ [];
  per_field_prompt_templates = ("tags", "list tags") ∷ [];
  global_prompt_template = "global";
}

-- An empty template falls through to the next one.
templates_chosen :
    (resolve_prompt_template templates (some 4) (some "tags") ≡ "contract")
    × (resolve_prompt_template templates (some 3) none ≡ "global")
unfolding resolve_prompt_template or_text get
templates_chosen = (refl, refl)

text_cut : truncate_to_context_window {C = ℕ} (1 ∷ 2 ∷ 3 ∷ []) 2 ≡ 1 ∷ 2 ∷ []
unfolding truncate_to_context_window
text_cut = refl
