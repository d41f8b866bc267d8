-- ===== src/Approval/AuditTrail.antt =====
-- The audit log against the suggestions table (backend/approval_queue.py).
use paperless_iq.Prelude.{
  ℕ, ◌+◌, String, ◌≡◌, refl, sym, ap, ◌∙◌, inl, inr, Bool, true, false, ◌&&◌, Option, none, some,
  List, [], ◌∷◌, ◌++◌, arith, if◌then◌else◌, Bool-cases, nat_eq, string_eq, ◌==◌, eq_of_==,
}
use paperless_iq.Approval.Py.{Py}
use paperless_iq.Approval.Rows.{
  Status, pending, approved, rejected, SuggestionRow, Db, get_row, update_row,
}
use paperless_iq.Approval.Service.{
  ApproveArgs, RejectArgs, is_sibling, commit_approval, finish, approval_audits, title_or,
  superseded_events,
}
use paperless_iq.Approval.Operations.{reject_pending, rejection_event}
use paperless_iq.Approval.Lookup.{map_row, id_of_get, get-update, superseded}
use paperless_iq.Approval.Lifecycle.{get-commit, marked_row}
use paperless_iq.Approval.Unique.{Unique, Unique-update, Unique-supersede}
use paperless_iq.Approval.Events.{
  decisions, decisions-append, decisions-written, sibling_count, decisions-superseded,
  approvals-superseded,
}

-- How often a status counts as approved (`true`) or rejected (`false`).
abbrev pub status_count : Bool → Status → ℕ
status_count d pending = 0
status_count d approved = if d then 1 else 0
status_count d rejected = if d then 0 else 1

abbrev pub decided_count : Bool → Option SuggestionRow → ℕ
decided_count d none = 0
decided_count d (some r) = status_count d r.status

pub record Logged (db : Db) : Type 0 where
  pub ids : Unique db.suggestions
  pub counts :
      (d : Bool) (j : ℕ) → decisions d j db.audit_log ≡ decided_count d (get_row db.suggestions j)

pub Logged-reject :
    (row : SuggestionRow) (args : RejectArgs) (db : Db) (sid : ℕ)
    → get_row db.suggestions sid ≡ some row
    → row.status ≡ pending
    → Logged db
    → Logged (reject_pending row args db).1
unfolding reject_pending rejection_event
Logged-reject row args db sid h e l = record {
  ids = Unique-update db.suggestions row.id (λ r. record r { status = rejected }) (λ r p. p) l.ids;
  counts = λ d j.
      rw
        (
          decisions-append d j db.audit_log (rejection_event row args ∷ []),
          get-update db.suggestions row.id j (λ r. record r { status = rejected }) (λ r p. p),
        )
        (ground (arith, l.counts d j, id_of_get db.suggestions sid row h));
}

module _ {F : Type 0} (py : Py F) (original row : SuggestionRow) (args : ApproveArgs)
    (db : Db) where
  marked : List SuggestionRow
  marked = update_row db.suggestions row.id (λ r. record row { status = approved })

  get-marked : (j : ℕ) → get_row marked j ≡ marked_row py original row args db j
  unfolding marked
  get-marked j =
      get-update db.suggestions row.id j (λ r. record row { status = approved }) (λ r p. refl)

  Unique-marked : Unique db.suggestions → Unique marked
  unfolding marked
  Unique-marked u =
      Unique-update db.suggestions row.id (λ r. record row { status = approved }) (λ r p. refl) u

  Unique-commit :
      Unique db.suggestions → Unique (commit_approval py original row args db).suggestions
  unfolding commit_approval finish marked
  Unique-commit u = go args.supersede_siblings
    where
      one : Unique marked
      one = Unique-marked u

      go :
          (b : Bool)
          → Unique
              (finish b row
                (title_or args.document_title original.title)
                args
                marked
                (approval_audits py original row (title_or args.document_title original.title) args)
                db).suggestions
      go true = Unique-supersede row marked one
      go false = one

  count-marked :
      (d : Bool) (j : ℕ)
      → get_row db.suggestions row.id ≡ some original
      → original.status ≡ pending
      → decided_count d (marked_row py original row args db j)
        ≡ decided_count d (get_row db.suggestions j) + (if d && (row.id == j) then 1 else 0)
  count-marked d j h e = elim (Bool-cases (row.id == j)) [
    | inl same ↦
        rw (same, ← eq_of_== row.id j same, h)
          (elim (Bool-cases d) [
            | inl t ↦ rw (t, e) (omega arith)
            | inr f ↦ rw (f, e) (omega arith)
          ])
    | inr ne ↦
        rw ne (elim (Bool-cases d) [ inl t ↦ rw t (omega arith) | inr f ↦ rw f (omega arith) ])
  ]

count-superseded :
    (row : SuggestionRow) (d : Bool) (o : Option SuggestionRow)
    → decided_count d (map_row (superseded row) o)
      ≡ decided_count d o + (if d then 0 else sibling_count row o)
unfolding is_sibling
count-superseded row d none = ground arith
count-superseded row d (some x) = ground arith

module _ {F : Type 0} (py : Py F) (original row : SuggestionRow) (args : ApproveArgs)
    (db : Db) where
  count-events :
      (d : Bool) (j : ℕ) (t : Option String) (rows : List SuggestionRow)
      → Unique rows
      → decisions d j (superseded_events row t args rows)
        ≡ (if d then 0 else sibling_count row (get_row rows j))
  count-events true j t rows u = approvals-superseded row t args j rows
  count-events false j t rows u = decisions-superseded row t args j rows u

  finish-counts :
      (b d : Bool) (j : ℕ) (t : Option String)
      → get_row db.suggestions row.id ≡ some original
      → original.status ≡ pending
      → Logged db
      → decisions d j
          (finish b row t args
            (marked py original row args db)
            (approval_audits py original row t args)
            db).audit_log
        ≡ decided_count d (
            if b
            then map_row (superseded row) (marked_row py original row args db j)
            else marked_row py original row args db j)
  unfolding finish
  finish-counts true d j t h e l = omega (
    arith,
    decisions-append d j db.audit_log (
        approval_audits py original row t args
        ++ superseded_events row t args (marked py original row args db)),
    decisions-append d j (approval_audits py original row t args)
        (superseded_events row t args (marked py original row args db)),
    decisions-written py d j original row t args,
    count-events d j t (marked py original row args db)
        (Unique-marked py original row args db l.ids),
    get-marked_count d j,
    count-superseded row d (marked_row py original row args db j),
    count-marked py original row args db d j h e,
    l.counts d j,
  )
    where
      get-marked_count :
          (c : Bool) (i : ℕ)
          → (if c then 0 else sibling_count row (get_row (marked py original row args db) i))
            ≡ (if c then 0 else sibling_count row (marked_row py original row args db i))
      get-marked_count c i =
          ap (λ o. if c then 0 else sibling_count row o) (get-marked py original row args db i)
  finish-counts false d j t h e l = omega (
    arith,
    decisions-append d j db.audit_log (approval_audits py original row t args),
    decisions-written py d j original row t args,
    count-marked py original row args db d j h e,
    l.counts d j,
  )

  pub Logged-commit :
      get_row db.suggestions row.id ≡ some original
      → original.status ≡ pending
      → Logged db
      → Logged (commit_approval py original row args db)
  unfolding commit_approval marked
  Logged-commit h e l = record {
    ids = Unique-commit py original row args db l.ids;
    counts = λ d j.
        finish-counts args.supersede_siblings d j (title_or args.document_title original.title) h e
          l
        ∙ ap (decided_count d) (sym (get-commit py original row args db j));
  }
