-- ===== src/Approval/Emptying.antt =====
-- The route empty_queue (backend/main.py).
use paperless_iq.Prelude.{
  ℕ, ◌≤◌, ◌≡◌, refl, sym, ap, ◌∙◌, inl, inr, Bool, true, false, ◌||◌, not, Option, none, some, List,
  [], ◌∷◌, map, arith, Bool-cases, Option-cases, keep, any, nat_eq, string_eq, ◌==◌, eq_of_==,
}
use paperless_iq.Approval.Rows.{
  Status, pending, approved, rejected, SuggestionRow, MetadataSuggestion, Db, get_row,
  orm_to_pydantic, is_pending,
}
use paperless_iq.Approval.Service.{RejectArgs}
use paperless_iq.Approval.Operations.{
  reject, reject_loaded, reject_pending, reject_each, empty_queue, empty_queue_limit, list_page,
  newest_first, insert_newest, status_is,
}
use paperless_iq.Approval.Lookup.{id_of_get, get-update}
use paperless_iq.Approval.Listing.{length-newest}
use paperless_iq.Prelude.{take_all}
use paperless_iq.Approval.Lifecycle.{reject-Frozen}

reject_loaded_silent :
    (row : SuggestionRow) (status : Status) (args : RejectArgs) (db : Db)
    → args.record_dismissals ≡ false
    → (reject_loaded row status args db).1.dismissals ≡ db.dismissals
unfolding reject_loaded reject_pending
reject_loaded_silent row pending args db e = rw e
reject_loaded_silent row approved args db e = refl
reject_loaded_silent row rejected args db e = refl

reject_silent :
    (sid : ℕ) (args : RejectArgs) (db : Db)
    → args.record_dismissals ≡ false
    → (reject sid args db).1.dismissals ≡ db.dismissals
unfolding reject
reject_silent sid args db e = elim (Option-cases (get_row db.suggestions sid)) [
  | inl h ↦ rw (h, reject)
  | inr (row, h) ↦ rw (h, reject) (reject_loaded_silent row row.status args db e)
]

reject_each_silent :
    (xs : List MetadataSuggestion) (args : RejectArgs) (n : ℕ) (db : Db)
    → args.record_dismissals ≡ false
    → (reject_each xs args n db).1.dismissals ≡ db.dismissals
unfolding reject_each
reject_each_silent [] args n db e = refl
reject_each_silent (s ∷ xs) args n db e =
    reject_each_silent xs args _ (reject s.id args db).1 e ∙ reject_silent s.id args db e

-- After a rejection the row of the id, if there is one, is decided.
decided : Option SuggestionRow → Bool
decided none = true
decided (some r) = not (is_pending r.status)

undecided :
    (o : Option SuggestionRow)
    → decided o ≡ false
    → (r : SuggestionRow) × ((o ≡ some r) × (is_pending r.status ≡ true))
unfolding decided
undecided none e = absurd (cc)
undecided (some r) e = (r, (refl, ground arith))

reject_loaded_decides :
    (sid : ℕ) (row : SuggestionRow) (status : Status) (args : RejectArgs) (db : Db)
    → get_row db.suggestions sid ≡ some row
    → row.status ≡ status
    → decided (get_row (reject_loaded row status args db).1.suggestions sid) ≡ true
unfolding reject_loaded reject_pending decided
reject_loaded_decides sid row approved args db h e = rw (h, e)
reject_loaded_decides sid row rejected args db h e = rw (h, e)
reject_loaded_decides sid row pending args db h e =
    rw (get-update db.suggestions row.id sid (λ r. record r { status = rejected }) (λ r p. p))
      (ground (arith, id_of_get db.suggestions sid row h))

reject_decides :
    (sid : ℕ) (args : RejectArgs) (db : Db)
    → decided (get_row (reject sid args db).1.suggestions sid) ≡ true
unfolding reject decided
reject_decides sid args db = elim (Option-cases (get_row db.suggestions sid)) [
  | inl h ↦ rw (h, reject) (rw h)
  | inr (row, h) ↦ rw (h, reject) (reject_loaded_decides sid row row.status args db h refl)
]

-- No operation of the loop brings an id into the table.
reject_loaded_missing :
    (row : SuggestionRow) (status : Status) (args : RejectArgs) (db : Db) (j : ℕ)
    → get_row db.suggestions j ≡ none
    → get_row (reject_loaded row status args db).1.suggestions j ≡ none
unfolding reject_loaded reject_pending
reject_loaded_missing row approved args db j h = h
reject_loaded_missing row rejected args db j h = h
reject_loaded_missing row pending args db j h =
    rw (get-update db.suggestions row.id j (λ r. record r { status = rejected }) (λ r p. p))
      (ground arith)

reject_missing :
    (sid : ℕ) (args : RejectArgs) (db : Db) (j : ℕ)
    → get_row db.suggestions j ≡ none
    → get_row (reject sid args db).1.suggestions j ≡ none
unfolding reject
reject_missing sid args db j n = elim (Option-cases (get_row db.suggestions sid)) [
  | inl h ↦ rw (h, reject) n
  | inr (row, h) ↦ rw (h, reject) (reject_loaded_missing row row.status args db j n)
]

reject_settled :
    (sid : ℕ) (args : RejectArgs) (db : Db) (j : ℕ)
    → decided (get_row db.suggestions j) ≡ true
    → decided (get_row (reject sid args db).1.suggestions j) ≡ true
unfolding decided
reject_settled sid args db j d = elim (Option-cases (get_row db.suggestions j)) [
  | inl h ↦ rw (reject_missing sid args db j h)
  | inr (r, h) ↦ rw ((reject-Frozen sid args db).at_id j r h (ground arith)) (ground arith)
]

reject_each_settled :
    (xs : List MetadataSuggestion) (args : RejectArgs) (n : ℕ) (db : Db) (j : ℕ)
    → decided (get_row db.suggestions j) ≡ true
    → decided (get_row (reject_each xs args n db).1.suggestions j) ≡ true
unfolding reject_each
reject_each_settled [] args n db j d = d
reject_each_settled (s ∷ xs) args n db j d =
    reject_each_settled xs args _ (reject s.id args db).1 j (reject_settled s.id args db j d)

abbrev names_id : ℕ → MetadataSuggestion → Bool
names_id j s = s.id == j

reject_each_clears :
    (xs : List MetadataSuggestion) (args : RejectArgs) (n : ℕ) (db : Db) (j : ℕ)
    → any (names_id j) xs ≡ true
    → decided (get_row (reject_each xs args n db).1.suggestions j) ≡ true
unfolding reject_each
reject_each_clears [] args n db j h = cc
reject_each_clears (s ∷ xs) args n db j h = elim (Bool-cases (s.id == j)) [
  | inl e ↦
      reject_each_settled xs args _ (reject s.id args db).1 j
        (rw (← eq_of_== s.id j e) (reject_decides s.id args db))
  | inr e ↦ reject_each_clears xs args _ (reject s.id args db).1 j (ground arith)
]

abbrev row_named : ℕ → SuggestionRow → Bool
row_named j r = r.id == j

any-map_orm :
    (j : ℕ) (rows : List SuggestionRow)
    → any (names_id j) (map orm_to_pydantic rows) ≡ any (row_named j) rows
unfolding orm_to_pydantic
any-map_orm j [] = refl
any-map_orm j (r ∷ rows) = ap (λ b. (r.id == j) || b) (any-map_orm j rows)

any-insert :
    (p : SuggestionRow → Bool) (r : SuggestionRow) (rows : List SuggestionRow)
    → any p (insert_newest r rows) ≡ (p r || any p rows)
unfolding insert_newest
any-insert p r [] = refl
any-insert p r (x ∷ rows) = ground (arith, any-insert p r rows)

any-newest :
    (p : SuggestionRow → Bool) (rows : List SuggestionRow) → any p (newest_first rows) ≡ any p rows
unfolding newest_first
any-newest p [] = refl
any-newest p (r ∷ rows) =
    any-insert p r (newest_first rows) ∙ ap (λ b. p r || b) (any-newest p rows)

any-pending :
    (j : ℕ) (rows : List SuggestionRow) (r : SuggestionRow)
    → get_row rows j ≡ some r
    → is_pending r.status ≡ true
    → any (row_named j) (keep (status_is (some pending)) rows) ≡ true
unfolding get_row
any-pending j [] r h e = cc
any-pending j (x ∷ rows) r h e = ground (arith, any-pending j rows r)

on_page :
    (j : ℕ) (db : Db) (r : SuggestionRow)
    → get_row db.suggestions j ≡ some r
    → is_pending r.status ≡ true
    → (list_page (some pending) 1 empty_queue_limit db).1 ≤ empty_queue_limit
    → any (names_id j) (list_page (some pending) 1 empty_queue_limit db).0 ≡ true
unfolding list_page
on_page j db r h e fits =
    any-map_orm j _
    ∙ (ap (any (row_named j)) (
          take_all 10000 (newest_first (keep (status_is (some pending)) db.suggestions))
            (omega (arith, fits, length-newest (keep (status_is (some pending)) db.suggestions))))
        ∙ (any-newest (row_named j) (keep (status_is (some pending)) db.suggestions)
            ∙ any-pending j db.suggestions r h e))

all_decided :
    (args : RejectArgs) (db : Db) (j : ℕ)
    → (list_page (some pending) 1 empty_queue_limit db).1 ≤ empty_queue_limit
    → decided (get_row (empty_queue args db).1.suggestions j) ≡ true
unfolding empty_queue
all_decided args db j fits = elim (Bool-cases (decided (get_row db.suggestions j))) [
  | inl d ↦ reject_each_settled page silent 0 db j d
  | inr p ↦
      let (r, rest) = undecided (get_row db.suggestions j) p in
      reject_each_clears page silent 0 db j (on_page j db r rest.0 rest.1 fits)
]
  where
    page : List MetadataSuggestion
    page = (list_page (some pending) 1 empty_queue_limit db).0

    silent : RejectArgs
    silent = record args { record_dismissals = false }

-- Emptying a queue of at most 10000 pending suggestions leaves none pending.
pub empty_queue_clears :
    (args : RejectArgs) (db : Db) (j : ℕ) (r : SuggestionRow)
    → (list_page (some pending) 1 empty_queue_limit db).1 ≤ empty_queue_limit
    → get_row (empty_queue args db).1.suggestions j ≡ some r
    → is_pending r.status ≡ false
unfolding decided
empty_queue_clears args db j r fits h =
    not_pending_of r.status (ap decided (sym h) ∙ all_decided args db j fits)
  where
    not_pending_of : (s : Status) → not (is_pending s) ≡ true → is_pending s ≡ false
    not_pending_of pending e = sym e
    not_pending_of approved e = refl
    not_pending_of rejected e = refl

-- Emptying the queue writes no dismissal, so a later scan may suggest the same again.
empty_queue_silent :
    (args : RejectArgs) (db : Db) → (empty_queue args db).1.dismissals ≡ db.dismissals
unfolding empty_queue
empty_queue_silent args db =
    reject_each_silent (list_page (some pending) 1 empty_queue_limit db).0
      (record args { record_dismissals = false }) 0 db refl
