-- ===== src/Approval/AuditHistory.antt =====
-- The agreement of the audit log with the table, through any sequence of operations.
use paperless_iq.Prelude.{
  ℕ, String, ◌≡◌, refl, ap, ◌∙◌, inl, inr, Bool, false, some, List, [], ◌∷◌, arith, Option-cases,
  nat_eq, string_eq,
}
use paperless_iq.Approval.Exec.{Result, ok, err, resume-keeps}
use paperless_iq.Approval.Py.{Py}
use paperless_iq.Approval.Rows.{
  Status, pending, approved, rejected, SuggestionRow, MetadataSuggestion, Db, get_row,
  pydantic_to_orm,
}
use paperless_iq.Approval.Entities.{CreateMissing, Server, Net}
use paperless_iq.Approval.Patch.{patch_paperless}
use paperless_iq.Approval.Service.{World, ApproveArgs, RejectArgs, apply_edits, payload_of, enqueue}
use paperless_iq.Approval.Operations.{
  reject, reject_loaded, bulk_reject, reject_each, empty_queue, list_page, approve, approve_loaded,
  after_patch, bulk_args, bulk_approve,
}
use paperless_iq.Approval.Lookup.{id_of_get}
use paperless_iq.Approval.Lifecycle.{id-apply_edits}
use paperless_iq.Approval.Unique.{Unique-append, get-append_new}
use paperless_iq.Approval.AuditTrail.{Logged, Logged-reject, Logged-commit}
use paperless_iq.Approval.History.{
  Operation, enqueues, approves, rejects, bulk_approves, bulk_rejects, empties, step, run,
}

Logged-enqueue : (s : MetadataSuggestion) (db : Db) → Logged db → Logged (enqueue s db).1
unfolding enqueue pydantic_to_orm
Logged-enqueue s db l = elim (Option-cases (get_row db.suggestions s.id)) [
  | inl e ↦
      rw (e, enqueue)
        (record {
          ids =
              Unique-append db.suggestions (pydantic_to_orm (record s { status = pending })) l.ids
                e;
          counts = λ d j.
              rw
                (get-append_new db.suggestions (pydantic_to_orm (record s { status = pending })) j
                  e)
                (ground (arith, l.counts d j));
        })
  | inr (row, e) ↦ rw (e, enqueue) l
]

reject_loaded-Logged :
    (sid : ℕ) (row : SuggestionRow) (status : Status) (args : RejectArgs) (db : Db)
    → get_row db.suggestions sid ≡ some row
    → row.status ≡ status
    → Logged db
    → Logged (reject_loaded row status args db).1
unfolding reject_loaded
reject_loaded-Logged sid row pending args db h e l = Logged-reject row args db sid h e l
reject_loaded-Logged sid row approved args db h e l = l
reject_loaded-Logged sid row rejected args db h e l = l

reject-Logged : (sid : ℕ) (args : RejectArgs) (db : Db) → Logged db → Logged (reject sid args db).1
unfolding reject
reject-Logged sid args db l = elim (Option-cases (get_row db.suggestions sid)) [
  | inl e ↦ rw (e, reject) l
  | inr (row, e) ↦ rw (e, reject) (reject_loaded-Logged sid row row.status args db e refl l)
]

bulk_reject-Logged :
    (sids : List ℕ) (args : RejectArgs) (db : Db) → Logged db → Logged (bulk_reject sids args db).1
unfolding bulk_reject
bulk_reject-Logged [] args db l = l
bulk_reject-Logged (sid ∷ sids) args db l =
    resume-keeps Logged _ (reject sid args db) (reject-Logged sid args db l) λ a s m.
      resume-keeps Logged _ (bulk_reject sids args s) (bulk_reject-Logged sids args s m)
        (λ r s' n. n)

reject_each-Logged :
    (xs : List MetadataSuggestion) (args : RejectArgs) (n : ℕ) (db : Db)
    → Logged db
    → Logged (reject_each xs args n db).1
unfolding reject_each
reject_each-Logged [] args n db l = l
reject_each-Logged (s ∷ xs) args n db l =
    reject_each-Logged xs args _ (reject s.id args db).1 (reject-Logged s.id args db l)

empty_queue-Logged : (args : RejectArgs) (db : Db) → Logged db → Logged (empty_queue args db).1
unfolding empty_queue
empty_queue-Logged args db l =
    reject_each-Logged (list_page (some pending) 1 10000 db).0
      (record args { record_dismissals = false }) 0 db l

module _ {F S : Type 0} (py : Py F) (api : Server S) (configured : Bool) where
  approve_loaded-Logged :
      (sid : ℕ) (row : SuggestionRow) (status : Status) (args : ApproveArgs) (w : World S)
      → get_row w.db.suggestions sid ≡ some row
      → row.status ≡ status
      → Logged w.db
      → Logged (approve_loaded py api configured row status args w).1.db
  unfolding approve_loaded
  approve_loaded-Logged sid row approved args w h e l = l
  approve_loaded-Logged sid row rejected args w h e l = l
  approve_loaded-Logged sid row pending args w h e l = patched (
      patch_paperless py api configured edited.document_id (payload_of edited args) args.merge_tags
        args.create_missing args.now w.net)
    where
      edited : SuggestionRow
      edited = apply_edits args.edits row

      there : get_row w.db.suggestions edited.id ≡ some row
      there =
          ap (get_row w.db.suggestions)
            (id-apply_edits args.edits row ∙ id_of_get w.db.suggestions sid row h)
          ∙ h

      patched :
          (r : Result (Unit {0}) × Net S)
          → Logged (after_patch py api configured row edited args w.db r).1.db
      patched (err f, net) = l
      patched (ok u, net) = Logged-commit py row edited args w.db there e l

  approve-Logged :
      (sid : ℕ) (args : ApproveArgs) (w : World S)
      → Logged w.db
      → Logged (approve py api configured sid args w).1.db
  unfolding approve
  approve-Logged sid args w l = elim (Option-cases (get_row w.db.suggestions sid)) [
    | inl e ↦ rw (e, approve) l
    | inr (row, e) ↦ rw (e, approve) (approve_loaded-Logged sid row row.status args w e refl l)
  ]

  bulk_approve-Logged :
      (sids : List ℕ) (source : String) (create_missing : CreateMissing) (now : ℕ) (w : World S)
      → Logged w.db
      → Logged (bulk_approve py api configured sids source create_missing now w).1.db
  unfolding bulk_approve
  bulk_approve-Logged [] source create_missing now w l = l
  bulk_approve-Logged (sid ∷ sids) source create_missing now w l =
      resume-keeps (λ w'. Logged w'.db) _
        (approve py api configured sid (bulk_args py api configured source create_missing now) w)
        (approve-Logged sid (bulk_args py api configured source create_missing now) w l)
        λ a s m.
          resume-keeps (λ w'. Logged w'.db) _
            (bulk_approve py api configured sids source create_missing now s)
            (bulk_approve-Logged sids source create_missing now s m) (λ r s' n. n)

  step-Logged : (w : World S) (o : Operation) → Logged w.db → Logged (step py api configured w o).db
  unfolding step
  step-Logged w (enqueues s) l = Logged-enqueue s w.db l
  step-Logged w (approves sid args) l = approve-Logged sid args w l
  step-Logged w (rejects sid args) l = reject-Logged sid args w.db l
  step-Logged w (bulk_approves sids source create_missing now) l =
      bulk_approve-Logged sids source create_missing now w l
  step-Logged w (bulk_rejects sids args) l = bulk_reject-Logged sids args w.db l
  step-Logged w (empties args) l = empty_queue-Logged args w.db l

  -- Through any operations, each returning or raising, the ids stay distinct, and the log holds one
  -- approval event for each approved suggestion, one rejection event for each rejected one (be it
  -- rejected, superseded or cleared), and none for any other id.
  pub run-Logged :
      (w : World S) (os : List Operation) → Logged w.db → Logged (run py api configured w os).db
  unfolding run
  run-Logged w [] l = l
  run-Logged w (o ∷ os) l = run-Logged (step py api configured w o) os (step-Logged w o l)
