-- ===== src/AuditLog/Service.antt =====
-- AuditLogService (backend/audit_log.py) over the committed rows of its table. The random primary
-- keys are left out, and times are seconds. `LIKE` of the database is a parameter; for rows with one
-- time it may answer in any order, and here the order of the table decides.
use paperless_iq.Prelude.{
  ℕ, ◌-◌, ◌*◌, String, Bool, true, false, ◌&&◌, not, Option, none, some, List, [], ◌∷◌, ◌++◌, ltb,
  leb, or_else, length, take, drop, keep, nat_eq, string_eq, ◌==◌,
}
use paperless_iq.Prelude.Dict.{Dict}
use paperless_iq.VectorStore.Results.{best_first}

pub record AuditLogEntry : Type 0 where
  pub document_id : ℕ
  pub document_title : Option String
  pub field_name : String
  pub previous_value : Option String
  pub new_value : Option String
  pub change_source : String
  pub action_type : String
  pub session_id : Option String
  pub changed_at : ℕ
  pub suggestion_id : Option ℕ

-- The arguments that the two writing methods share, `changed_at` as `now`.
pub record Origin : Type 0 where
  pub change_source : String
  pub suggestion_id : Option ℕ
  pub now : ℕ
  pub document_title : Option String
  pub session_id : Option String

unfoldable pub change_entry : ℕ → Origin → String → Option String → Option String → AuditLogEntry
change_entry document_id origin field_name prev new = record {
  document_id = document_id;
  document_title = origin.document_title;
  field_name = field_name;
  previous_value = prev;
  new_value = new;
  change_source = origin.change_source;
  action_type = "field_change";
  session_id = origin.session_id;
  changed_at = origin.now;
  suggestion_id = origin.suggestion_id;
}

unfoldable pub change_entries :
    ℕ → Dict String (Option String × Option String) → Origin → List AuditLogEntry
unfolding change_entry
change_entries document_id [] origin = []
change_entries document_id ((field_name, (prev, new)) ∷ changes) origin =
    change_entry document_id origin field_name prev new ∷ change_entries document_id changes origin

-- The entries, and the table after them.
unfoldable pub record_changes :
    ℕ
    → Dict String (Option String × Option String)
    → Origin
    → List AuditLogEntry
    → List AuditLogEntry × List AuditLogEntry
unfolding change_entries
record_changes document_id changes origin rows =
    (change_entries document_id changes origin, rows ++ change_entries document_id changes origin)

unfoldable pub record_event :
    String
    → Option ℕ
    → String
    → Option String
    → Origin
    → List AuditLogEntry
    → AuditLogEntry × List AuditLogEntry
record_event action_type document_id field_name new_value origin rows =
    let entry : AuditLogEntry = record {
      document_id = or_else document_id 0;
      document_title = origin.document_title;
      field_name = field_name;
      previous_value = none;
      new_value = new_value;
      change_source = origin.change_source;
      action_type = action_type;
      session_id = origin.session_id;
      changed_at = origin.now;
      suggestion_id = origin.suggestion_id;
    } in
    (entry, rows ++ entry ∷ [])

-- The optional filters of a query.
pub record Filters : Type 0 where
  pub document_id : Option ℕ
  pub date_from : Option ℕ
  pub date_to : Option ℕ
  pub change_source : Option String
  pub action_type : Option String
  pub field_name : Option String
  pub document_title_pattern : Option String

-- A condition that is there only when its argument is.
abbrev pub given {ℓ} : {A : Type ℓ} → Option A → (A → Bool) → Bool
given none condition = true
given (some a) condition = condition a

module _ (ilike : String → String → Bool) where
  -- A title of NULL is like nothing.
  abbrev pub title_like : Option String → String → Bool
  title_like none pattern_ = false
  title_like (some title) pattern_ = ilike title pattern_

  unfoldable pub build_conditions : Filters → AuditLogEntry → Bool
  build_conditions filters row =
      given filters.document_id (λ d. row.document_id == d)
      && (given filters.date_from (λ t. leb t row.changed_at)
          && (given filters.date_to (λ t. leb row.changed_at t)
              && (given filters.change_source (λ s. row.change_source == s)
                  && (given filters.action_type (λ s. row.action_type == s)
                      && (given filters.field_name (λ s. row.field_name == s)
                          && given filters.document_title_pattern
                              (title_like row.document_title))))))

  -- The rows of a filter, the newest first.
  unfoldable pub matching : Filters → List AuditLogEntry → List AuditLogEntry
  unfolding build_conditions best_first
  matching filters rows = best_first (λ r. r.changed_at) (keep (build_conditions filters) rows)

  -- A page counts from 1, and the total.
  unfoldable pub query : Filters → ℕ → ℕ → List AuditLogEntry → List AuditLogEntry × ℕ
  unfolding build_conditions matching
  query filters page page_size rows = (
    take page_size (drop ((page - 1) * page_size) (matching filters rows)),
    length (keep (build_conditions filters) rows),
  )

  unfoldable pub export_rows : Filters → ℕ → List AuditLogEntry → List AuditLogEntry
  unfolding matching
  export_rows filters max_rows rows = take max_rows (matching filters rows)

-- `now - timedelta(days=retention_days)`
unfoldable pub cutoff : ℕ → ℕ → ℕ
cutoff now retention_days = now - retention_days * 86400

-- How many rows were deleted, and the table after it.
unfoldable pub cleanup : ℕ → ℕ → List AuditLogEntry → ℕ × List AuditLogEntry
unfolding cutoff
cleanup now retention_days rows =
    let is_old = λ (r : AuditLogEntry). ltb r.changed_at (cutoff now retention_days) in
    (length (keep is_old rows), keep (λ r. not (is_old r)) rows)
