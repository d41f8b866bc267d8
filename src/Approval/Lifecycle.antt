-- ===== src/Approval/Lifecycle.antt =====
-- The life of a suggestion: what an operation of the service may do to a row that is decided.
use paperless_iq.Prelude.{
  ℕ, String, ◌≡◌, refl, ap, ◌∙◌, inl, inr, Bool, true, false, Option, some, List, [], ◌∷◌, ◌++◌,
  arith, if◌then◌else◌, Option-cases, nat_eq, string_eq, ◌==◌,
}
use paperless_iq.Approval.Exec.{Result, ok, err, resume-keeps}
use paperless_iq.Approval.Py.{Py}
use paperless_iq.Approval.Rows.{
  Status, pending, approved, rejected, SuggestionRow, MetadataSuggestion, Db, get_row, update_row,
  is_pending,
}
use paperless_iq.Approval.Entities.{CreateMissing, Server, Net}
use paperless_iq.Approval.Patch.{patch_paperless}
use paperless_iq.Approval.Service.{
  World, Edit, ApproveArgs, RejectArgs, apply_edit, apply_edits, is_sibling, commit_approval,
  finish, title_or, approval_audits, payload_of, enqueue,
}
use paperless_iq.Approval.Operations.{
  reject, reject_loaded, bulk_reject, reject_each, empty_queue, list_page, approve, approve_loaded,
  after_patch, bulk_args, bulk_approve,
}
use paperless_iq.Approval.Lookup.{map_row, id_of_get, get-update, superseded, get-supersede}

-- A row that is approved or rejected in `db` stands in `db'` as it was.
pub record Frozen (db db' : Db) : Type 0 where
  pub at_id :
      (j : ℕ) (r : SuggestionRow)
      → get_row db.suggestions j ≡ some r
      → is_pending r.status ≡ false
      → get_row db'.suggestions j ≡ some r

pub Frozen-refl : (db : Db) → Frozen db db
Frozen-refl db = record { at_id = λ j r h p. h }

pub Frozen-trans : {a b c : Db} → Frozen a b → Frozen b c → Frozen a c
Frozen-trans f g = record { at_id = λ j r h p. g.at_id j r (f.at_id j r h p) p }

pub id-apply_edits : (es : List Edit) (row : SuggestionRow) → (apply_edits es row).id ≡ row.id
unfolding apply_edits
id-apply_edits [] row = refl
id-apply_edits (e ∷ es) row = id-apply_edits es (apply_edit e row) ∙ one e
  where
    one : (d : Edit) → (apply_edit d row).id ≡ row.id
    one (Edit.set_title v) = refl
    one (Edit.set_correspondent v) = refl
    one (Edit.set_document_type v) = refl
    one (Edit.set_storage_path v) = refl
    one (Edit.set_tags v) = refl
    one (Edit.set_custom_fields v) = refl
    one (Edit.other_field name) = refl

pub document-apply_edits :
    (es : List Edit) (row : SuggestionRow) → (apply_edits es row).document_id ≡ row.document_id
unfolding apply_edits
document-apply_edits [] row = refl
document-apply_edits (e ∷ es) row = document-apply_edits es (apply_edit e row) ∙ one e
  where
    one : (d : Edit) → (apply_edit d row).document_id ≡ row.document_id
    one (Edit.set_title v) = refl
    one (Edit.set_correspondent v) = refl
    one (Edit.set_document_type v) = refl
    one (Edit.set_storage_path v) = refl
    one (Edit.set_tags v) = refl
    one (Edit.set_custom_fields v) = refl
    one (Edit.other_field name) = refl

module _ {F : Type 0} (py : Py F) (original row : SuggestionRow) (args : ApproveArgs)
    (db : Db) where
  abbrev pub marked_row : ℕ → Option SuggestionRow
  marked_row j =
      if row.id == j
      then map_row (λ r. record row { status = approved }) (get_row db.suggestions j)
      else get_row db.suggestions j

  -- The row of each id after an approval.
  pub get-commit :
      (j : ℕ)
      → get_row (commit_approval py original row args db).suggestions j ≡ (
          if args.supersede_siblings then map_row (superseded row) (marked_row j) else marked_row j)
  unfolding commit_approval finish
  get-commit j = go args.supersede_siblings
    where
      marked :
          get_row (update_row db.suggestions row.id (λ r. record row { status = approved })) j
          ≡ marked_row j
      marked =
          get-update db.suggestions row.id j (λ r. record row { status = approved }) (λ r h. refl)

      go :
          (b : Bool)
          → get_row
              (finish b row
                (title_or args.document_title original.title)
                args
                (update_row db.suggestions row.id (λ r. record row { status = approved }))
                (approval_audits py original row (title_or args.document_title original.title) args)
                db).suggestions
              j
            ≡ (if b then map_row (superseded row) (marked_row j) else marked_row j)
      go true = get-supersede row _ j ∙ ap (map_row (superseded row)) marked
      go false = marked

  commit-Frozen :
      get_row db.suggestions row.id ≡ some original
      → is_pending original.status ≡ true
      → Frozen db (commit_approval py original row args db)
  unfolding is_sibling
  commit-Frozen at p = record { at_id = λ j r h d. rw get-commit (ground arith) }

module _ {F S : Type 0} (py : Py F) (api : Server S) (configured : Bool) where
  approve_loaded-Frozen :
      (sid : ℕ) (row : SuggestionRow) (status : Status) (args : ApproveArgs) (w : World S)
      → get_row w.db.suggestions sid ≡ some row
      → row.status ≡ status
      → Frozen w.db (approve_loaded py api configured row status args w).1.db
  unfolding approve_loaded
  approve_loaded-Frozen sid row approved args w h e = Frozen-refl w.db
  approve_loaded-Frozen sid row rejected args w h e = Frozen-refl w.db
  approve_loaded-Frozen sid row pending args w h e = patched (
      patch_paperless py api configured edited.document_id (payload_of edited args) args.merge_tags
        args.create_missing args.now w.net)
    where
      edited : SuggestionRow
      edited = apply_edits args.edits row

      there : get_row w.db.suggestions edited.id ≡ some row
      there =
          ap (get_row w.db.suggestions)
            (id-apply_edits args.edits row ∙ id_of_get w.db.suggestions sid row h)
          ∙ h

      patched :
          (r : Result (Unit {0}) × Net S)
          → Frozen w.db (after_patch py api configured row edited args w.db r).1.db
      patched (err f, net) = Frozen-refl w.db
      patched (ok u, net) = commit-Frozen py row edited args w.db there (rw e)

  pub approve-Frozen :
      (sid : ℕ) (args : ApproveArgs) (w : World S)
      → Frozen w.db (approve py api configured sid args w).1.db
  unfolding approve
  approve-Frozen sid args w = elim (Option-cases (get_row w.db.suggestions sid)) [
    | inl e ↦ rw (e, approve) (Frozen-refl w.db)
    | inr (row, e) ↦ rw (e, approve) (approve_loaded-Frozen sid row row.status args w e refl)
  ]

  pub bulk_approve-Frozen :
      (sids : List ℕ) (source : String) (create_missing : CreateMissing) (now : ℕ) (w : World S)
      → Frozen w.db (bulk_approve py api configured sids source create_missing now w).1.db
  unfolding bulk_approve
  bulk_approve-Frozen [] source create_missing now w = Frozen-refl w.db
  bulk_approve-Frozen (sid ∷ sids) source create_missing now w =
      resume-keeps (λ w'. Frozen w.db w'.db) _
        (approve py api configured sid (bulk_args py api configured source create_missing now) w)
        (approve-Frozen sid (bulk_args py api configured source create_missing now) w)
        λ a s f.
          resume-keeps (λ w'. Frozen w.db w'.db) _
            (bulk_approve py api configured sids source create_missing now s)
            (Frozen-trans f (bulk_approve-Frozen sids source create_missing now s)) (λ l s' g. g)

reject_loaded-Frozen :
    (sid : ℕ) (row : SuggestionRow) (status : Status) (args : RejectArgs) (db : Db)
    → get_row db.suggestions sid ≡ some row
    → row.status ≡ status
    → Frozen db (reject_loaded row status args db).1
unfolding reject_loaded
reject_loaded-Frozen sid row approved args db h e = Frozen-refl db
reject_loaded-Frozen sid row rejected args db h e = Frozen-refl db
reject_loaded-Frozen sid row pending args db h e = record {
  at_id = λ j r p d.
      rw (get-update db.suggestions row.id j (λ x. record x { status = rejected }) (λ x q. q))
        (ground (arith, id_of_get db.suggestions sid row h));
}

pub reject-Frozen : (sid : ℕ) (args : RejectArgs) (db : Db) → Frozen db (reject sid args db).1
unfolding reject
reject-Frozen sid args db = elim (Option-cases (get_row db.suggestions sid)) [
  | inl e ↦ rw (e, reject) (Frozen-refl db)
  | inr (row, e) ↦ rw (e, reject) (reject_loaded-Frozen sid row row.status args db e refl)
]

pub bulk_reject-Frozen :
    (sids : List ℕ) (args : RejectArgs) (db : Db) → Frozen db (bulk_reject sids args db).1
unfolding bulk_reject
bulk_reject-Frozen [] args db = Frozen-refl db
bulk_reject-Frozen (sid ∷ sids) args db =
    resume-keeps (Frozen db) _ (reject sid args db) (reject-Frozen sid args db) λ a s f.
      resume-keeps (Frozen db) _ (bulk_reject sids args s)
        (Frozen-trans f (bulk_reject-Frozen sids args s)) (λ l s' g. g)

pub reject_each-Frozen :
    (l : List MetadataSuggestion) (args : RejectArgs) (n : ℕ) (db : Db)
    → Frozen db (reject_each l args n db).1
unfolding reject_each
reject_each-Frozen [] args n db = Frozen-refl db
reject_each-Frozen (s ∷ l) args n db =
    Frozen-trans (reject-Frozen s.id args db) (reject_each-Frozen l args _ (reject s.id args db).1)

get-append :
    (rows : List SuggestionRow) (x r : SuggestionRow) (j : ℕ)
    → get_row rows j ≡ some r
    → get_row (rows ++ x ∷ []) j ≡ some r
unfolding get_row
get-append [] x r j h = cc
get-append (y ∷ rows) x r j h = ground (arith, get-append rows x r j)

pub enqueue-Frozen : (s : MetadataSuggestion) (db : Db) → Frozen db (enqueue s db).1
unfolding enqueue
enqueue-Frozen s db = elim (Option-cases (get_row db.suggestions s.id)) [
  | inl e ↦ rw (e, enqueue) (record { at_id = λ j r h d. get-append db.suggestions _ r j h })
  | inr (row, e) ↦ rw (e, enqueue) (Frozen-refl db)
]

pub empty_queue-Frozen : (args : RejectArgs) (db : Db) → Frozen db (empty_queue args db).1
unfolding empty_queue
empty_queue-Frozen args db =
    reject_each-Frozen (list_page (some pending) 1 10000 db).0
      (record args { record_dismissals = false }) 0 db
