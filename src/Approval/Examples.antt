-- ===== src/Approval/Examples.antt =====
-- The theorems about the queue at small concrete inputs.
use paperless_iq.Prelude.{
  ℕ, suc, ◌≤◌, ◌≡◌, refl, true, false, ◌||◌, none, some, List, [], ◌∷◌, map, arith, length, keep,
  All, nat_eq, string_eq, contains, occurrences, one_if,
}
use paperless_iq.Prelude.Dict.{get, put}
use paperless_iq.Approval.Exec.{ok, not_pending}
use paperless_iq.Approval.Py.{Py, whole}
use paperless_iq.Approval.Rows.{
  Status, pending, approved, rejected, ocr, absent, SuggestionRow, MetadataSuggestion, Db, get_row,
  update_row, is_pending, orm_to_pydantic,
}
use paperless_iq.Approval.Entities.{
  EntityType, page, refused, accepted, Server, Net, allow_new, existing_only, PolicyConfig, for_all,
  entity_eq, per_type, creation_policy_map, add_items, may_create, resolve_or_create_entity_ids,
}
use paperless_iq.Approval.Patch.{patch_tags, patch_paperless}
use paperless_iq.Approval.Service.{
  World, set_title, ApproveArgs, RejectArgs, enqueue, commit_approval, finish, supersede,
}
use paperless_iq.Approval.Operations.{reject, approve, list_page, status_is, empty_queue}
use paperless_iq.Approval.AuditTrail.{Logged}
use paperless_iq.Approval.History.{
  Operation, enqueues, approves, rejects, empties, run, run-decided,
}
use paperless_iq.Approval.AuditHistory.{run-Logged}
use paperless_iq.Approval.Outcomes.{approve_failed, approve_settles}
use paperless_iq.Approval.Creation.{policy_for, approve_creates}
use paperless_iq.Approval.Tags.{patch_tags_merged}
use paperless_iq.Approval.Repeats.{enqueue_twice, reject_twice}
use mathlib.Core.List.{Perm}
use paperless_iq.Approval.Listing.{Descending, pages, pages_cover}
use paperless_iq.Approval.Emptying.{empty_queue_clears}

abbrev plain : Py ℕ
plain = record {
  lower = λ s. s;
  strip = λ s. s;
  comma_to_dot = λ s. s;
  clip = λ n s. s;
  render = λ v. "";
  same_value = λ a b. false;
  dumps_tags = λ ts. "";
  dumps_fields = λ fs. "";
  parse_float = λ s. none;
  fixed2 = λ x. "";
  show_float = λ x. "";
  truncate = λ x. whole "";
}

-- A server that knows one tag, gives new entities the next id and accepts every PATCH.
abbrev willing : Server ℕ
willing = record {
  listing = λ t s.
      page (record { id = 1; name = "invoice"; data_type = "string"; options = [] } ∷ []) ∷ [];
  create = λ t name s. (some (suc s), suc s);
  document_tags = λ doc s. some (1 ∷ 4 ∷ []);
  patch = λ doc body s. (accepted, s);
}

-- A server that refuses every listing.
abbrev unwilling : Server ℕ
unwilling = record {
  listing = λ t s. refused ∷ [];
  create = λ t name s. (none, s);
  document_tags = λ doc s. some (1 ∷ 4 ∷ []);
  patch = λ doc body s. (accepted, s);
}

abbrev start : Net ℕ
start = record { server = 10; entity_cache = []; fields_cache = none; posts = [] }

abbrev row_of : ℕ → ℕ → Status → SuggestionRow
row_of sid doc status = record {
  id = sid;
  document_id = doc;
  status = status;
  created_at = sid;
  title = some "old";
  tags = some ("invoice" ∷ "tax" ∷ []);
  correspondent = none;
  document_type = none;
  storage_path = none;
  custom_fields = none;
  llm_provider = "";
  llm_model = "";
  analysis_mode = ocr;
  prompt_used = "";
  raw_llm_response = "";
  extracted_content = none;
  original_ocr_content = none;
  evidence_json = absent;
}

abbrev db_of : List SuggestionRow → Db
db_of rows = record { suggestions = rows; audit_log = []; dismissals = [] }

abbrev three_rows : List SuggestionRow
three_rows = row_of 1 7 pending ∷ row_of 2 7 pending ∷ row_of 3 8 approved ∷ []

abbrev world : World ℕ
world = record { db = db_of three_rows; net = start }

abbrev empty_world : World ℕ
empty_world = record { db = db_of []; net = start }

abbrev tags_only : PolicyConfig
tags_only = record {
  tag_creation_policy = allow_new;
  correspondent_creation_policy = existing_only;
  doctype_creation_policy = existing_only;
  storage_path_creation_policy = existing_only;
}

abbrev approve_args : ApproveArgs
approve_args = record {
  edits = set_title (some "new") ∷ [];
  change_source = "ui";
  merge_tags = true;
  create_missing = per_type (creation_policy_map tags_only);
  document_title = none;
  session_id = none;
  apply_content = false;
  supersede_siblings = true;
  now = 5;
}

abbrev reject_args : RejectArgs
reject_args = record {
  change_source = "ui";
  document_title = none;
  session_id = none;
  record_dismissals = true;
  now = 6;
}

abbrev suggestion_of : ℕ → MetadataSuggestion
suggestion_of sid = orm_to_pydantic (row_of sid 7 pending)

abbrev calls : List Operation
calls =
    rejects 3 reject_args
    ∷ approves 1 approve_args
    ∷ enqueues (suggestion_of 3)
    ∷ empties reject_args
    ∷ []

-- Concrete runs.
approve_posts :
    (approve plain willing true 1 approve_args world).1.net.posts ≡ (EntityType.tags, "tax") ∷ []
unfolding approve creation_policy_map get_row patch_paperless resolve_or_create_entity_ids get
    add_items put may_create
approve_posts = refl

run_rows :
    (run plain willing true world calls).db.suggestions
    ≡ record (row_of 1 7 approved) { title = some "new" }
      ∷ row_of 2 7 rejected
      ∷ row_of 3 8 approved
      ∷ []
unfolding run empty_queue enqueue reject commit_approval finish supersede update_row orm_to_pydantic
    approve creation_policy_map get_row patch_paperless resolve_or_create_entity_ids get add_items
    put may_create
run_rows = refl

-- The theorems.
run-decided_example :
    get_row (run plain willing true world calls).db.suggestions 3 ≡ some (row_of 3 8 approved)
unfolding get_row
run-decided_example =
    run-decided plain willing true world calls 3 (row_of 3 8 approved) refl (λ e. cc)

empty-Logged : Logged (db_of [])
unfolding get_row
empty-Logged = record { ids = tt; counts = λ d j. refl }

abbrev three_calls : List Operation
three_calls = enqueues (suggestion_of 3) ∷ enqueues (suggestion_of 4) ∷ approves 3 approve_args ∷ []

run-Logged_example : Logged (run plain willing true empty_world three_calls).db
run-Logged_example = run-Logged plain willing true empty_world three_calls empty-Logged

approve_failed_example : (approve plain willing true 3 approve_args world).1.db ≡ world.db
unfolding approve get_row
approve_failed_example = approve_failed plain willing true 3 approve_args world not_pending refl

approve_settles_example : is_pending (row_of 2 7 rejected).status ≡ false
unfolding commit_approval finish supersede update_row orm_to_pydantic approve creation_policy_map
    get_row patch_paperless resolve_or_create_entity_ids get add_items put may_create
approve_settles_example =
    approve_settles plain willing true 1 approve_args world
      (orm_to_pydantic (record (row_of 1 7 approved) { title = some "new" })) (row_of 1 7 pending) 2
      (row_of 2 7 rejected) refl refl refl refl refl

approve_creates_example :
    All
      (λ p. policy_for tags_only p.0 ≡ some allow_new)
      (approve plain willing true 1 approve_args world).1.net.posts
approve_creates_example =
    approve_creates plain willing true 1 approve_args world tags_only refl refl

abbrev known_tag : Net ℕ
known_tag = record start { entity_cache = (EntityType.tags, (3, ("invoice", 1) ∷ [])) ∷ [] }

patch_tags_merged_example :
    (merged : List ℕ) × ((patch_tags plain willing 7
        (some ("invoice" ∷ []))
        true
        (for_all false)
        5
        known_tag).0
      ≡ ok (some merged))
    × (occurrences 1 merged
        ≡ one_if (contains {A = ℕ} (1 ∷ 4 ∷ []) 1 || contains {A = ℕ} (1 ∷ []) 1))
unfolding resolve_or_create_entity_ids get may_create
patch_tags_merged_example =
    patch_tags_merged plain willing 7 ("invoice" ∷ []) (for_all false) 5 known_tag known_tag
      (1 ∷ []) (1 ∷ 4 ∷ []) 1 refl refl

enqueue_twice_example :
    enqueue (suggestion_of 9) (enqueue (suggestion_of 9) world.db).1
    ≡ enqueue (suggestion_of 9) world.db
enqueue_twice_example = enqueue_twice (suggestion_of 9) (suggestion_of 9) world.db refl

reject_twice_example :
    reject 1 reject_args (reject 1 reject_args world.db).1
    ≡ (ok (orm_to_pydantic (row_of 1 7 rejected)), (reject 1 reject_args world.db).1)
unfolding reject get_row orm_to_pydantic
reject_twice_example =
    reject_twice 1 reject_args reject_args world.db (orm_to_pydantic (row_of 1 7 rejected)) refl

pages_cover_example :
    (rows : List SuggestionRow) × Perm rows (keep (status_is (some pending)) three_rows)
    × Descending rows
    × (pages (some pending) 2 1 world.db ≡ map orm_to_pydantic rows)
    × (length (list_page (some pending) 2 1 world.db).0 ≤ 1)
unfolding list_page
pages_cover_example = pages_cover (some pending) 1 world.db 2 (omega arith)

empty_queue_clears_example : is_pending (row_of 2 7 rejected).status ≡ false
unfolding empty_queue list_page reject get_row update_row orm_to_pydantic
empty_queue_clears_example =
    empty_queue_clears reject_args world.db 2 (row_of 2 7 rejected) (omega arith) refl
