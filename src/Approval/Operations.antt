-- ===== src/Approval/Operations.antt =====
-- The operations of ApprovalQueueService on the committed rows and the server: reject, list, approve
-- and the bulk operations; and the route empty_queue of backend/main.py.
use paperless_iq.Prelude.{
  ℕ, ◌+◌, ◌-◌, ◌*◌, String, Bool, true, false, Option, none, some, List, [], ◌∷◌, ◌++◌, map, leb,
  if◌then◌else◌, length, take, drop, keep, nat_eq, string_eq,
}
use paperless_iq.Approval.Exec.{
  Exec, Result, ok, err, Failure, not_found, not_pending, patch_refused, http_failure, overflow,
  ◌>>=◌,
}
use paperless_iq.Approval.Py.{Py}
use paperless_iq.Approval.Rows.{
  Status, pending, approved, rejected, AnalysisMode, grooming, ocr, full_document, EvidenceAction,
  Evidence, absent, unreadable, actions, SuggestionRow, MetadataSuggestion, orm_to_pydantic,
  AuditRow, suggestion_ref, rejected_event, Dismissal, Db, get_row, update_row, is_pending,
}
use paperless_iq.Approval.Entities.{CreateMissing, Server, Net}
use paperless_iq.Approval.Patch.{patch_paperless}
use paperless_iq.Approval.Service.{
  World, ApproveArgs, RejectArgs, apply_edits, title_or, payload_of, commit_approval,
}

-- `_record_grooming_dismissals`: one row for each action that names an entity.
unfoldable pub action_dismissals : ℕ → ℕ → List EvidenceAction → List Dismissal
action_dismissals now document_id [] = []
action_dismissals now document_id (a ∷ as₁) =
    let rest = action_dismissals now document_id as₁ in
    elim a.entity_id [
      | none ↦ rest
      | some eid ↦
          record {
            entity_type = a.entity_type;
            entity_id = eid;
            document_id = document_id;
            action = a.action;
            other_entity_id = a.replacement_entity_id;
            dismissed_at = now;
          }
          ∷ rest
    ]

unfoldable pub evidence_dismissals : ℕ → ℕ → AnalysisMode → Evidence → List Dismissal
unfolding action_dismissals
evidence_dismissals now document_id grooming (actions as₁) = action_dismissals now document_id as₁
evidence_dismissals now document_id grooming absent = []
evidence_dismissals now document_id grooming unreadable = []
evidence_dismissals now document_id ocr evidence = []
evidence_dismissals now document_id full_document evidence = []

unfoldable pub rejection_event : SuggestionRow → RejectArgs → AuditRow
unfolding title_or
rejection_event row args = record {
  document_id = row.document_id;
  document_title = title_or args.document_title row.title;
  field_name = "_event";
  previous_value = none;
  new_value = some (suggestion_ref row.id);
  change_source = args.change_source;
  action_type = rejected_event;
  session_id = args.session_id;
  changed_at = args.now;
  suggestion_id = row.id;
}

unfoldable pub reject_pending : SuggestionRow → RejectArgs → Exec Db MetadataSuggestion
unfolding evidence_dismissals rejection_event
reject_pending row args db = (
  ok (orm_to_pydantic (record row { status = rejected })),
  record {
    suggestions = update_row db.suggestions row.id (λ r. record r { status = rejected });
    audit_log = db.audit_log ++ rejection_event row args ∷ [];
    dismissals =
        if args.record_dismissals
        then db.dismissals
          ++ evidence_dismissals args.now row.document_id row.analysis_mode row.evidence_json
        else db.dismissals;
  },
)

unfoldable pub reject_loaded : SuggestionRow → Status → RejectArgs → Exec Db MetadataSuggestion
unfolding reject_pending
reject_loaded row pending args db = reject_pending row args db
reject_loaded row approved args db = (err not_pending, db)
reject_loaded row rejected args db = (ok (orm_to_pydantic row), db)

unfoldable pub reject : ℕ → RejectArgs → Exec Db MetadataSuggestion
unfolding reject_loaded
reject suggestion_id args db = elim (get_row db.suggestions suggestion_id) [
  | none ↦ (err not_found, db)
  | some row ↦ reject_loaded row row.status args db
]

-- `bulk_reject`: the default arguments at the clock's time; the first exception ends it.
unfoldable pub bulk_reject : List ℕ → RejectArgs → Exec Db (List MetadataSuggestion)
bulk_reject [] args db = (ok [], db)
bulk_reject (sid ∷ sids) args db =
    (do
      result ← reject sid args
      results ← bulk_reject sids args
      λ db'. (ok (result ∷ results), db'))
      db

-- `list`: newest first. Rows of one time stay in the order of the table here, which SQL leaves open.
unfoldable pub insert_newest : SuggestionRow → List SuggestionRow → List SuggestionRow
insert_newest r [] = r ∷ []
insert_newest r (x ∷ xs) =
    let rest = insert_newest r xs in
    if leb x.created_at r.created_at then r ∷ (x ∷ xs) else x ∷ rest

unfoldable pub newest_first : List SuggestionRow → List SuggestionRow
unfolding insert_newest
newest_first [] = []
newest_first (r ∷ rows) = insert_newest r (newest_first rows)

abbrev pub status_is : Option Status → SuggestionRow → Bool
status_is none r = true
status_is (some pending) r = is_pending r.status
status_is (some approved) r = elim r.status [ approved ↦ true | _ ↦ false ]
status_is (some rejected) r = elim r.status [ rejected ↦ true | _ ↦ false ]

-- Items and total. Pages count from 1.
unfoldable pub list_page : Option Status → ℕ → ℕ → Db → List MetadataSuggestion × ℕ
unfolding newest_first
list_page status page page_size db =
    let rows = keep (status_is status) db.suggestions in
    (
      map orm_to_pydantic (take page_size (drop ((page - 1) * page_size) (newest_first rows))),
      length rows,
    )

abbrev pub is_value_error : Failure → Bool
is_value_error not_found = true
is_value_error not_pending = true
is_value_error patch_refused = true
is_value_error http_failure = false
is_value_error overflow = false

-- `empty_queue`: the loop over the page; a ValueError is passed over. The answer counts the rejected.
abbrev pub counted : ℕ → Result MetadataSuggestion → ℕ
counted n (ok s) = n + 1
counted n (err e) = n

unfoldable pub reject_each : List MetadataSuggestion → RejectArgs → ℕ → Db → ℕ × Db
reject_each [] args n db = (n, db)
reject_each (s ∷ rest) args n db =
    let (r, db') = reject s.id args db in reject_each rest args (counted n r) db'

-- The page size of the route.
abbrev pub empty_queue_limit : ℕ
empty_queue_limit = 10000

unfoldable pub empty_queue : RejectArgs → Db → ℕ × Db
unfolding reject_each list_page
empty_queue args db =
    reject_each (list_page (some pending) 1 empty_queue_limit db).0
      (record args { record_dismissals = false }) 0 db

module _ {F S : Type 0} (py : Py F) (api : Server S) (configured : Bool) where
  abbrev pub after_patch :
      SuggestionRow
      → SuggestionRow
      → ApproveArgs
      → Db
      → Result (Unit {0}) × Net S
      → Result MetadataSuggestion × World S
  after_patch original row args db (err e, net) = (err e, record { db = db; net = net })
  after_patch original row args db (ok u, net) = (
    ok (orm_to_pydantic (record row { status = approved })),
    record { db = commit_approval py original row args db; net = net },
  )

  -- The PATCH comes first; an exception leaves the committed rows alone.
  unfoldable pub approve_pending : SuggestionRow → ApproveArgs → Exec (World S) MetadataSuggestion
  unfolding apply_edits payload_of
  approve_pending original args world =
      let row = apply_edits args.edits original in
      after_patch original row args world.db (
        patch_paperless py api configured row.document_id (payload_of row args) args.merge_tags
          args.create_missing args.now world.net)

  unfoldable pub approve_loaded :
      SuggestionRow → Status → ApproveArgs → Exec (World S) MetadataSuggestion
  unfolding approve_pending
  approve_loaded row pending args world = approve_pending row args world
  approve_loaded row approved args world = (err not_pending, world)
  approve_loaded row rejected args world = (err not_pending, world)

  unfoldable pub approve : ℕ → ApproveArgs → Exec (World S) MetadataSuggestion
  unfolding approve_loaded
  approve suggestion_id args world = elim (get_row world.db.suggestions suggestion_id) [
    | none ↦ (err not_found, world)
    | some row ↦ approve_loaded row row.status args world
  ]

  -- The keyword arguments that `bulk_approve` passes on.
  abbrev pub bulk_args : String → CreateMissing → ℕ → ApproveArgs
  bulk_args change_source create_missing now = record {
    edits = [];
    change_source = change_source;
    merge_tags = false;
    create_missing = create_missing;
    document_title = none;
    session_id = none;
    apply_content = false;
    supersede_siblings = false;
    now = now;
  }

  unfoldable pub bulk_approve :
      List ℕ → String → CreateMissing → ℕ → Exec (World S) (List MetadataSuggestion)
  bulk_approve [] change_source create_missing now world = (ok [], world)
  bulk_approve (sid ∷ sids) change_source create_missing now world =
      (do
        result ← approve sid (bulk_args change_source create_missing now)
        results ← bulk_approve sids change_source create_missing now
        λ world'. (ok (result ∷ results), world'))
        world
