-- ===== src/AuditLog/Examples.antt =====
-- Runs of AuditLogService (backend/audit_log.py).
use paperless_iq.Prelude.{
  ℕ, String, ◌≡◌, refl, Bool, true, none, some, List, [], ◌∷◌, map, nat_eq, string_eq,
}
use paperless_iq.VectorStore.Results.{insert_scored, best_first}
use paperless_iq.AuditLog.Service.{
  AuditLogEntry, Origin, change_entry, change_entries, record_changes, record_event, Filters,
  build_conditions, matching, export_rows, cutoff, cleanup,
}
use paperless_iq.AuditLog.Cleanup.{Cleaned, cleanup_lem}

abbrev origin : ℕ → Origin
origin now = record {
  change_source = "user:ann";
  suggestion_id = none;
  now = now;
  document_title = some "Invoice";
  session_id = none;
}

abbrev title_rows : List AuditLogEntry
title_rows = (record_changes 7 (("title", (none, some "Invoice")) ∷ []) (origin 1000) []).1

abbrev three_rows : List AuditLogEntry
three_rows =
    (record_event "approved" (some 7) "_event" none (origin 200000)
      (record_event "reindex" none "_event" none (origin 100000) title_rows).1).1

abbrev from_100000 : Filters
from_100000 = record {
  document_id = none;
  date_from = some 100000;
  date_to = none;
  change_source = some "user:ann";
  action_type = none;
  field_name = none;
  document_title_pattern = some "inv";
}

abbrev always_like : String → String → Bool
always_like title pattern_ = true

rows_exported :
    map (λ r. r.action_type) (export_rows always_like from_100000 10 three_rows)
    ≡ "approved" ∷ "reindex" ∷ []
unfolding record_changes record_event change_entries change_entry export_rows matching
    build_conditions best_first insert_scored
rows_exported = refl

one_deleted : (cleanup 180000 1 three_rows).0 ≡ 1
unfolding record_changes record_event change_entries change_entry cleanup cutoff
one_deleted = refl

cleanup_lem_example :
    Cleaned always_like 180000 1 three_rows
      (cleanup 180000 1 three_rows).0
      (cleanup 180000 1 three_rows).1
cleanup_lem_example = cleanup_lem always_like 180000 1 three_rows
