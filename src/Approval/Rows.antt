-- ===== src/Approval/Rows.antt =====
-- The tables behind the queue (backend/orm_models.py), the Pydantic model that the service answers
-- with (backend/models.py), and the conversions between them. Ids and times are numbers; the random
-- primary key of an audit or dismissal row is left out.
use paperless_iq.Prelude.{
  ℕ, String, Bool, true, false, Option, none, some, List, [], ◌∷◌, if◌then◌else◌, or_else, nat_eq,
  string_eq, ◌==◌,
}
use paperless_iq.Prelude.Dict.{Dict}
use paperless_iq.Approval.Py.{Value}

pub data Status : Type 0 where
  pending approved rejected : Status

abbrev pub is_pending : Status → Bool
is_pending pending = true
is_pending approved = false
is_pending rejected = false

pub data AnalysisMode : Type 0 where
  ocr full_document grooming : AnalysisMode

-- One entry of `evidence_json["actions"]`.
pub record EvidenceAction : Type 0 where
  pub entity_type : String
  pub entity_id : Option ℕ
  pub action : String
  pub replacement_entity_id : Option ℕ

-- `evidence_json`: NULL or empty, a text that is no JSON, or its list of actions.
pub data Evidence : Type 0 where
  absent unreadable : Evidence
  actions : List EvidenceAction → Evidence

pub record SuggestionRow : Type 0 where
  pub id : ℕ
  pub document_id : ℕ
  pub status : Status
  pub created_at : ℕ
  pub title : Option String
  pub tags : Option (List String)
  pub correspondent : Option String
  pub document_type : Option String
  pub storage_path : Option String
  pub custom_fields : Option (Dict String Value)
  pub llm_provider : String
  pub llm_model : String
  pub analysis_mode : AnalysisMode
  pub prompt_used : String
  pub raw_llm_response : String
  pub extracted_content : Option String
  pub original_ocr_content : Option String
  pub evidence_json : Evidence

pub record MetadataSuggestion : Type 0 where
  pub id : ℕ
  pub document_id : ℕ
  pub status : Status
  pub created_at : ℕ
  pub title : Option String
  pub tags : List String
  pub correspondent : Option String
  pub document_type : Option String
  pub storage_path : Option String
  pub custom_fields : Dict String Value
  pub llm_provider : String
  pub llm_model : String
  pub analysis_mode : AnalysisMode
  pub prompt_used : String
  pub raw_llm_response : String
  pub extracted_content : Option String
  pub original_ocr_content : Option String
  pub evidence_json : Evidence

unfoldable pub orm_to_pydantic : SuggestionRow → MetadataSuggestion
orm_to_pydantic row = record {
  id = row.id;
  document_id = row.document_id;
  status = row.status;
  created_at = row.created_at;
  title = row.title;
  tags = or_else row.tags [];
  correspondent = row.correspondent;
  document_type = row.document_type;
  storage_path = row.storage_path;
  custom_fields = or_else row.custom_fields [];
  llm_provider = row.llm_provider;
  llm_model = row.llm_model;
  analysis_mode = row.analysis_mode;
  prompt_used = row.prompt_used;
  raw_llm_response = row.raw_llm_response;
  extracted_content = row.extracted_content;
  original_ocr_content = row.original_ocr_content;
  evidence_json = row.evidence_json;
}

unfoldable pub pydantic_to_orm : MetadataSuggestion → SuggestionRow
pydantic_to_orm suggestion = record {
  id = suggestion.id;
  document_id = suggestion.document_id;
  status = suggestion.status;
  created_at = suggestion.created_at;
  title = suggestion.title;
  tags = some suggestion.tags;
  correspondent = suggestion.correspondent;
  document_type = suggestion.document_type;
  storage_path = suggestion.storage_path;
  custom_fields = some suggestion.custom_fields;
  llm_provider = suggestion.llm_provider;
  llm_model = suggestion.llm_model;
  analysis_mode = suggestion.analysis_mode;
  prompt_used = suggestion.prompt_used;
  raw_llm_response = suggestion.raw_llm_response;
  extracted_content = suggestion.extracted_content;
  original_ocr_content = suggestion.original_ocr_content;
  evidence_json = suggestion.evidence_json;
}

-- `new_value` and `previous_value` of the audit log: a text, or one of the two f-strings.
pub data AuditValue : Type 0 where
  words : String → AuditValue
  suggestion_ref superseded_by : ℕ → AuditValue

pub data ActionType : Type 0 where
  field_change approved_event rejected_event : ActionType

pub record AuditRow : Type 0 where
  pub document_id : ℕ
  pub document_title : Option String
  pub field_name : String
  pub previous_value : Option AuditValue
  pub new_value : Option AuditValue
  pub change_source : String
  pub action_type : ActionType
  pub session_id : Option String
  pub changed_at : ℕ
  pub suggestion_id : ℕ

pub record Dismissal : Type 0 where
  pub entity_type : String
  pub entity_id : ℕ
  pub document_id : ℕ
  pub action : String
  pub other_entity_id : Option ℕ
  pub dismissed_at : ℕ

-- What has been committed.
pub record Db : Type 0 where
  pub suggestions : List SuggestionRow
  pub audit_log : List AuditRow
  pub dismissals : List Dismissal

-- `session.get(SuggestionORM, id)`
unfoldable pub get_row : List SuggestionRow → ℕ → Option SuggestionRow
get_row [] sid = none
get_row (r ∷ rows) sid = if r.id == sid then some r else get_row rows sid

-- The changes made to the loaded object of that id, flushed.
unfoldable pub update_row :
    List SuggestionRow → ℕ → (SuggestionRow → SuggestionRow) → List SuggestionRow
update_row [] sid f = []
update_row (r ∷ rows) sid f = (if r.id == sid then f r else r) ∷ update_row rows sid f
