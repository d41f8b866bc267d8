-- ===== src/Approval/Unique.antt =====
-- The primary key of the suggestions table (SuggestionORM in backend/orm_models.py).
use paperless_iq.Prelude.{
  ℕ, ◌≡◌, refl, sym, ap, ◌∙◌, ◌⊎◌, inl, inr, true, false, none, some, List, [], ◌∷◌, ◌++◌, arith,
  if◌then◌else◌, Bool-cases, nat_eq, string_eq, ◌==◌, eq_of_==,
}
use paperless_iq.Approval.Rows.{SuggestionRow, get_row, update_row}
use paperless_iq.Approval.Service.{is_sibling, supersede}
use paperless_iq.Approval.Lookup.{map_row, get-update, superseded, get-supersede}

abbrev pub Unique : List SuggestionRow → Type 0
Unique [] = Unit {0}
Unique (r ∷ rows) = (get_row rows r.id ≡ none) × Unique rows

pub Unique-update :
    (rows : List SuggestionRow) (sid : ℕ) (f : SuggestionRow → SuggestionRow)
    → ((r : SuggestionRow) → r.id ≡ sid → (f r).id ≡ sid)
    → Unique rows
    → Unique (update_row rows sid f)
unfolding update_row
Unique-update [] sid f keeps u = tt
Unique-update (r ∷ rows) sid f keeps u =
    (head (Bool-cases (r.id == sid)), Unique-update rows sid f keeps u.1)
  where
    free : get_row (update_row rows sid f) r.id ≡ none
    free = rw (get-update rows sid r.id f keeps) (ground (arith, u.0))

    head :
        ((r.id == sid) ≡ true) ⊎ ((r.id == sid) ≡ false)
        → get_row (update_row rows sid f) (if r.id == sid then f r else r).id ≡ none
    head (inl e) = rw e (
        ap (get_row (update_row rows sid f))
          (keeps r (eq_of_== r.id sid e) ∙ sym (eq_of_== r.id sid e))
        ∙ free)
    head (inr e) = rw e free

id-superseded : (row r : SuggestionRow) → (superseded row r).id ≡ r.id
id-superseded row r = elim (Bool-cases (is_sibling row r)) [ inl e ↦ rw e | inr e ↦ rw e ]

pub Unique-supersede :
    (row : SuggestionRow) (rows : List SuggestionRow) → Unique rows → Unique (supersede row rows)
unfolding supersede
Unique-supersede row [] u = tt
Unique-supersede row (r ∷ rows) u = (
  ap (get_row (supersede row rows)) (id-superseded row r)
      ∙ (get-supersede row rows r.id ∙ ap (map_row (superseded row)) u.0),
  Unique-supersede row rows u.1,
)

get-append_none :
    (rows : List SuggestionRow) (x : SuggestionRow) (j : ℕ)
    → get_row rows j ≡ none
    → (x.id == j) ≡ false
    → get_row (rows ++ x ∷ []) j ≡ none
unfolding get_row
get-append_none [] x j h e = rw e
get-append_none (y ∷ rows) x j h e = ground (arith, get-append_none rows x j)

pub Unique-append :
    (rows : List SuggestionRow) (x : SuggestionRow)
    → Unique rows
    → get_row rows x.id ≡ none
    → Unique (rows ++ x ∷ [])
unfolding get_row
Unique-append [] x u h = (refl, tt)
Unique-append (y ∷ rows) x u h =
    (get-append_none rows x y.id u.0 (ground arith), Unique-append rows x u.1 (ground arith))

-- The row of an id after an INSERT.
pub get-append_new :
    (rows : List SuggestionRow) (x : SuggestionRow) (j : ℕ)
    → get_row rows x.id ≡ none
    → get_row (rows ++ x ∷ []) j ≡ (if x.id == j then some x else get_row rows j)
unfolding get_row
get-append_new [] x j h = refl
get-append_new (y ∷ rows) x j h = ground (arith, get-append_new rows x j)
