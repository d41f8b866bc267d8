-- ===== src/Approval/Repeats.antt =====
-- Operations of the queue that are repeated (backend/approval_queue.py).
use paperless_iq.Prelude.{
  ℕ, ◌≡◌, refl, sym, ap, ◌∙◌, ◌⊎◌, inl, inr, Bool, none, some, if◌then◌else◌, eqb_iff, Option-cases,
  nat_eq, string_eq, ◌==◌, ==_refl,
}
use paperless_iq.Approval.Exec.{Result, ok, err, not_found}
use paperless_iq.Approval.Rows.{
  Status, pending, approved, rejected, SuggestionRow, MetadataSuggestion, Db, get_row,
  orm_to_pydantic, pydantic_to_orm,
}
use paperless_iq.Approval.Service.{RejectArgs, enqueue, enqueue_new}
use paperless_iq.Approval.Operations.{reject, reject_loaded, reject_pending}
use paperless_iq.Approval.Lookup.{map_row, id_of_get, get-update}
use paperless_iq.Approval.Unique.{get-append_new}

-- The row of a suggestion reads back as the suggestion.
pub orm-pydantic : (s : MetadataSuggestion) → orm_to_pydantic (pydantic_to_orm s) ≡ s
unfolding orm_to_pydantic pydantic_to_orm
orm-pydantic s = refl

enqueue_found :
    (s : MetadataSuggestion) (db : Db) (row : SuggestionRow)
    → get_row db.suggestions s.id ≡ some row
    → enqueue s db ≡ (ok (orm_to_pydantic row), db)
unfolding enqueue
enqueue_found s db row e = rw (e, enqueue)

enqueue_absent :
    (s : MetadataSuggestion) (db : Db)
    → get_row db.suggestions s.id ≡ none
    → enqueue s db ≡ enqueue_new s db
unfolding enqueue
enqueue_absent s db e = rw (e, enqueue)

get-enqueue_new :
    (s : MetadataSuggestion) (db : Db)
    → get_row db.suggestions s.id ≡ none
    → get_row (enqueue_new s db).1.suggestions s.id
      ≡ some (pydantic_to_orm (record s { status = pending }))
unfolding enqueue_new pydantic_to_orm
get-enqueue_new s db e =
    get-append_new db.suggestions (pydantic_to_orm (record s { status = pending })) s.id e
    ∙ rw (==_refl s.id)

answer-enqueue_new :
    (s : MetadataSuggestion) (db : Db)
    → enqueue_new s db ≡ (
      ok (orm_to_pydantic (pydantic_to_orm (record s { status = pending }))),
      (enqueue_new s db).1,
    )
unfolding enqueue_new
answer-enqueue_new s db = refl

-- Enqueueing a suggestion and then any suggestion of the same id answers the second as the first,
-- and changes nothing more.
pub enqueue_twice :
    (s s' : MetadataSuggestion) (db : Db)
    → s'.id ≡ s.id
    → enqueue s' (enqueue s db).1 ≡ enqueue s db
enqueue_twice s s' db same = again (Option-cases (get_row db.suggestions s.id))
  where
    at :
        (d : Db) (row : SuggestionRow)
        → get_row d.suggestions s.id ≡ some row
        → enqueue s' d ≡ (ok (orm_to_pydantic row), d)
    at d row e = enqueue_found s' d row (ap (get_row d.suggestions) same ∙ e)

    again :
        (get_row db.suggestions s.id ≡ none)
          ⊎ ((row : SuggestionRow) × (get_row db.suggestions s.id ≡ some row))
        → enqueue s' (enqueue s db).1 ≡ enqueue s db
    again (inl e) = rw (enqueue_absent s db e) (
        at (enqueue_new s db).1 (pydantic_to_orm (record s { status = pending }))
          (get-enqueue_new s db e)
        ∙ sym (answer-enqueue_new s db))
    again (inr (row, e)) = rw (enqueue_found s db row e) (at db row e)

-- A suggestion with a new id is answered as it was given, with the status pending.
enqueue_fresh :
    (s : MetadataSuggestion) (db : Db)
    → get_row db.suggestions s.id ≡ none
    → (enqueue s db).0 ≡ ok (record s { status = pending })
enqueue_fresh s db e =
    rw (enqueue_absent s db e, answer-enqueue_new s db)
      (ap ok (orm-pydantic (record s { status = pending })))

reject_found :
    (sid : ℕ) (args : RejectArgs) (db : Db) (row : SuggestionRow)
    → get_row db.suggestions sid ≡ some row
    → reject sid args db ≡ reject_loaded row row.status args db
unfolding reject
reject_found sid args db row e = rw (e, reject)

reject_absent :
    (sid : ℕ) (args : RejectArgs) (db : Db)
    → get_row db.suggestions sid ≡ none
    → reject sid args db ≡ (err not_found, db)
unfolding reject
reject_absent sid args db e = rw (e, reject)

-- The rejected row, loaded again.
get-reject_pending :
    (sid : ℕ) (args : RejectArgs) (db : Db) (row : SuggestionRow)
    → get_row db.suggestions sid ≡ some row
    → get_row (reject_pending row args db).1.suggestions sid
      ≡ some (record row { status = rejected })
unfolding reject_pending
get-reject_pending sid args db row e =
    get-update db.suggestions row.id sid (λ r. record r { status = rejected }) (λ r p. p)
    ∙ (ap (λ o. if row.id == sid then map_row (λ r. record r { status = rejected }) o else o) e
        ∙ ap (λ (b : Bool). if b then some (record row { status = rejected }) else some row)
            ((eqb_iff row.id sid).1 (id_of_get db.suggestions sid row e)))

reject_loaded_twice :
    (sid : ℕ) (args again : RejectArgs) (db : Db) (row : SuggestionRow) (status : Status)
    (s : MetadataSuggestion)
    → get_row db.suggestions sid ≡ some row
    → row.status ≡ status
    → (reject_loaded row status args db).0 ≡ ok s
    → reject sid again (reject_loaded row status args db).1
      ≡ (ok s, (reject_loaded row status args db).1)
unfolding reject_loaded
reject_loaded_twice sid args again db row approved s e st h = cc
reject_loaded_twice sid args again db row rejected s e st h =
    reject_found sid again db row e
    ∙ (ap (λ x. reject_loaded row x again db) st ∙ ap (λ r. (r, db)) h)
reject_loaded_twice sid args again db row pending s e st h =
    reject_found sid again (reject_pending row args db).1 (record row { status = rejected })
      (get-reject_pending sid args db row e)
    ∙ ap (λ (r : Result MetadataSuggestion). (r, (reject_pending row args db).1))
        (unfold reject_pending in h)

-- A rejection that returns can be repeated with any arguments: the answer is the same and nothing
-- more is written.
pub reject_twice :
    (sid : ℕ) (args again : RejectArgs) (db : Db) (s : MetadataSuggestion)
    → (reject sid args db).0 ≡ ok s
    → reject sid again (reject sid args db).1 ≡ (ok s, (reject sid args db).1)
reject_twice sid args again db s h = elim (Option-cases (get_row db.suggestions sid)) [
  | inl e ↦
      absurd
        (cc (ap (λ (r : Result MetadataSuggestion × Db). r.0) (reject_absent sid args db e), h))
  | inr (row, e) ↦ rw (reject_found sid args db row e) (
      reject_loaded_twice sid args again db row row.status s e refl
        (rw (reject_found sid args db row e) at h))
]
