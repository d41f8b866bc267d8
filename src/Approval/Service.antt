-- ===== src/Approval/Service.antt =====
-- The parts of ApprovalQueueService.approve (backend/approval_queue.py): the edits, the payload, the
-- audit rows, the siblings and the commit; and enqueue.
use paperless_iq.Prelude.{
  ℕ, String, Bool, true, false, ◌&&◌, not, Option, none, some, List, [], ◌∷◌, ◌++◌, map, eqb,
  if◌then◌else◌, is_some, or_else, length, keep, any, nat_eq, string_eq, ◌==◌,
}
use paperless_iq.Prelude.Dict.{Dict, get}
use paperless_iq.Approval.Exec.{Exec, Result, ok}
use paperless_iq.Approval.Py.{Py, Value}
use paperless_iq.Approval.Rows.{
  pending, approved, rejected, SuggestionRow, MetadataSuggestion, orm_to_pydantic, pydantic_to_orm,
  AuditValue, words, suggestion_ref, superseded_by, ActionType, field_change, approved_event,
  rejected_event, AuditRow, Db, get_row, update_row, is_pending,
}
use paperless_iq.Approval.Entities.{CreateMissing, Net}
use paperless_iq.Approval.Patch.{Payload, truthy}

-- The session's committed rows and what lies outside: the server and the entity cache.
pub record World (S : Type 0) : Type 0 where
  pub db : Db
  pub net : Net S

-- One entry of `edits`: a known field with its value, or a name that is no editable field.
pub data Edit : Type 0 where
  set_title set_correspondent set_document_type set_storage_path : Option String → Edit
  set_tags : Option (List String) → Edit
  set_custom_fields : Option (Dict String Value) → Edit
  other_field : String → Edit

-- The keyword arguments of `approve`, less `suggestion_id`, and the clock.
pub record ApproveArgs : Type 0 where
  pub edits : List Edit
  pub change_source : String
  pub merge_tags : Bool
  pub create_missing : CreateMissing
  pub document_title : Option String
  pub session_id : Option String
  pub apply_content : Bool
  pub supersede_siblings : Bool
  pub now : ℕ

pub record RejectArgs : Type 0 where
  pub change_source : String
  pub document_title : Option String
  pub session_id : Option String
  pub record_dismissals : Bool
  pub now : ℕ

unfoldable pub apply_edit : Edit → SuggestionRow → SuggestionRow
apply_edit (set_title v) row = record row { title = v }
apply_edit (set_correspondent v) row = record row { correspondent = v }
apply_edit (set_document_type v) row = record row { document_type = v }
apply_edit (set_storage_path v) row = record row { storage_path = v }
apply_edit (set_tags v) row = record row { tags = v }
apply_edit (set_custom_fields v) row = record row { custom_fields = v }
apply_edit (other_field name) row = row

unfoldable pub apply_edits : List Edit → SuggestionRow → SuggestionRow
unfolding apply_edit
apply_edits [] row = row
apply_edits (e ∷ es) row = apply_edits es (apply_edit e row)

-- `document_title or row.title`
unfoldable pub title_or : Option String → Option String → Option String
unfolding truthy
title_or document_title title = elim (truthy document_title) [ none ↦ title | some t ↦ some t ]

-- `a == b` on the values of the editable fields. Two dicts are equal whatever their order.
abbrev pub same_text : Option String → Option String → Bool
same_text none none = true
same_text (some a) (some b) = a == b
same_text none (some b) = false
same_text (some a) none = false

abbrev pub same_names : List String → List String → Bool
same_names [] [] = true
same_names (a ∷ as₁) (b ∷ bs) = a == b && same_names as₁ bs
same_names [] (b ∷ bs) = false
same_names (a ∷ as₁) [] = false

abbrev pub same_tags : Option (List String) → Option (List String) → Bool
same_tags none none = true
same_tags (some a) (some b) = same_names a b
same_tags none (some b) = false
same_tags (some a) none = false

-- `_value_to_str`
abbrev pub text_value : Option String → Option AuditValue
text_value none = none
text_value (some s) = some (words s)

-- One audit row of an approval or rejection of `row`.
abbrev pub audit_row :
    SuggestionRow
    → Option String
    → String
    → Option String
    → ℕ
    → String
    → Option AuditValue
    → Option AuditValue
    → ActionType
    → AuditRow
audit_row row doc_title change_source session_id now field_name previous new action = record {
  document_id = row.document_id;
  document_title = doc_title;
  field_name = field_name;
  previous_value = previous;
  new_value = new;
  change_source = change_source;
  action_type = action;
  session_id = session_id;
  changed_at = now;
  suggestion_id = row.id;
}

-- The row of a field whose value differs; `same` says that it does not.
unfoldable pub change_row :
    SuggestionRow
    → Option String
    → ApproveArgs
    → String
    → Bool
    → Option AuditValue
    → Option AuditValue
    → List AuditRow
change_row row doc_title args field_name true previous new = []
change_row row doc_title args field_name false previous new =
    audit_row row doc_title args.change_source args.session_id args.now field_name previous new
      field_change
    ∷ []

-- `content_applied`
unfoldable pub content_applied : Bool → SuggestionRow → Bool
unfolding truthy
content_applied apply_content row = apply_content && is_some (truthy row.extracted_content)

unfoldable pub approval_event : SuggestionRow → Option String → ApproveArgs → AuditRow
approval_event row doc_title args =
    audit_row row doc_title args.change_source args.session_id args.now "_event" none
      (some (suggestion_ref row.id)) approved_event

-- `payload`, with the content when it is applied.
unfoldable pub payload_of : SuggestionRow → ApproveArgs → Payload
unfolding content_applied
payload_of row args = record {
  title = row.title;
  tags = row.tags;
  correspondent = row.correspondent;
  document_type = row.document_type;
  storage_path = row.storage_path;
  custom_fields = row.custom_fields;
  content = if content_applied args.apply_content row then row.extracted_content else none;
}

-- The `where` clause of the sibling query.
unfoldable pub is_sibling : SuggestionRow → SuggestionRow → Bool
is_sibling row r =
    (r.document_id == row.document_id) && (is_pending r.status && not (r.id == row.id))

unfoldable pub superseded_event :
    SuggestionRow → Option String → ApproveArgs → SuggestionRow → AuditRow
superseded_event row doc_title args sib =
    audit_row sib doc_title args.change_source args.session_id args.now "_event" none
      (some (superseded_by row.id)) rejected_event

-- The siblings rejected, and their events.
unfoldable pub supersede : SuggestionRow → List SuggestionRow → List SuggestionRow
unfolding is_sibling
supersede row [] = []
supersede row (r ∷ rows) =
    (if is_sibling row r then record r { status = rejected } else r) ∷ supersede row rows

unfoldable pub superseded_events :
    SuggestionRow → Option String → ApproveArgs → List SuggestionRow → List AuditRow
unfolding is_sibling superseded_event
superseded_events row doc_title args rows =
    map (superseded_event row doc_title args) (keep (is_sibling row) rows)

-- The end of `approve`: the siblings, if they are superseded, and the commit.
unfoldable pub finish :
    Bool
    → SuggestionRow
    → Option String
    → ApproveArgs
    → List SuggestionRow
    → List AuditRow
    → Db
    → Db
finish true row doc_title args marked written db = record db {
  suggestions = supersede row marked;
  audit_log = db.audit_log ++ (written ++ superseded_events row doc_title args marked);
}
finish false row doc_title args marked written db = record db {
  suggestions = marked;
  audit_log = db.audit_log ++ written;
}

module _ {F : Type 0} (py : Py F) where
  abbrev pub same_entry : Value → Option Value → Bool
  same_entry v none = false
  same_entry v (some w) = py.same_value v w

  unfoldable pub same_fields : Option (Dict String Value) → Option (Dict String Value) → Bool
  same_fields none none = true
  same_fields (some a) (some b) =
      eqb (length a) (length b) && not (any (λ e. not (same_entry e.1 (get b e.0))) a)
  same_fields none (some b) = false
  same_fields (some a) none = false

  abbrev pub tags_value : Option (List String) → Option AuditValue
  tags_value none = none
  tags_value (some ts) = some (words (py.dumps_tags ts))

  abbrev pub fields_value : Option (Dict String Value) → Option AuditValue
  fields_value none = none
  fields_value (some fs) = some (words (py.dumps_fields fs))

  -- One row for each editable field whose value differs, in the order of `editable_fields`.
  unfoldable pub field_audits :
      SuggestionRow → SuggestionRow → Option String → ApproveArgs → List AuditRow
  field_audits original row doc_title args =
      change_row row doc_title args "title" (same_text original.title row.title)
        (text_value original.title) (text_value row.title)
      ++ (change_row row doc_title args "tags" (same_tags original.tags row.tags)
            (tags_value original.tags) (tags_value row.tags)
          ++ (change_row row doc_title args "correspondent"
                (same_text original.correspondent row.correspondent)
                (text_value original.correspondent) (text_value row.correspondent)
              ++ (change_row row doc_title args "document_type"
                    (same_text original.document_type row.document_type)
                    (text_value original.document_type) (text_value row.document_type)
                  ++ (change_row row doc_title args "storage_path"
                        (same_text original.storage_path row.storage_path)
                        (text_value original.storage_path) (text_value row.storage_path)
                      ++ change_row row doc_title args "custom_fields"
                          (same_fields original.custom_fields row.custom_fields)
                          (fields_value original.custom_fields) (fields_value row.custom_fields)))))

  unfoldable pub content_audits : SuggestionRow → Option String → ApproveArgs → List AuditRow
  unfolding content_applied
  content_audits row doc_title args =
      if content_applied args.apply_content row
      then audit_row row doc_title args.change_source args.session_id args.now "content"
          (text_value (truthy (some (py.clip 500 (or_else row.original_ocr_content "")))))
          (some (words (py.clip 500 (or_else row.extracted_content "")))) field_change
        ∷ []
      else []

  -- The audit rows of the approved suggestion itself.
  unfoldable pub approval_audits :
      SuggestionRow → SuggestionRow → Option String → ApproveArgs → List AuditRow
  approval_audits original row doc_title args =
      field_audits original row doc_title args
      ++ (content_audits row doc_title args ++ approval_event row doc_title args ∷ [])

  -- What `approve` commits once the PATCH has gone through: `row` is the edited row.
  unfoldable pub commit_approval : SuggestionRow → SuggestionRow → ApproveArgs → Db → Db
  commit_approval original row args db =
      let doc_title = title_or args.document_title original.title in
      finish args.supersede_siblings row doc_title args
        (update_row db.suggestions row.id (λ r. record row { status = approved }))
        (approval_audits original row doc_title args) db

-- `update={"status": "pending"}`
unfoldable pub enqueue_new : MetadataSuggestion → Db → Result MetadataSuggestion × Db
enqueue_new suggestion db =
    let row = pydantic_to_orm (record suggestion { status = pending }) in
    (ok (orm_to_pydantic row), record db { suggestions = db.suggestions ++ row ∷ [] })

unfoldable pub enqueue : MetadataSuggestion → Exec Db MetadataSuggestion
unfolding enqueue_new get_row
enqueue suggestion db = elim (get_row db.suggestions suggestion.id) [
  | some existing ↦ (ok (orm_to_pydantic existing), db)
  | none ↦ enqueue_new suggestion db
]
