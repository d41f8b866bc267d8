-- ===== src/Approval/Lookup.antt =====
-- How the row of an id changes under the updates of the service.
use paperless_iq.Prelude.{
  ℕ, ◌≡◌, refl, Option, none, some, List, [], ◌∷◌, arith, if◌then◌else◌, nat_eq, string_eq, ◌==◌,
}
use paperless_iq.Approval.Rows.{rejected, SuggestionRow, get_row, update_row}
use paperless_iq.Approval.Service.{is_sibling, supersede}

abbrev pub map_row : (SuggestionRow → SuggestionRow) → Option SuggestionRow → Option SuggestionRow
map_row f none = none
map_row f (some r) = some (f r)

pub id_of_get :
    (rows : List SuggestionRow) (sid : ℕ) (r : SuggestionRow)
    → get_row rows sid ≡ some r
    → r.id ≡ sid
unfolding get_row
id_of_get [] sid r h = cc
id_of_get (x ∷ rows) sid r h = ground (arith, id_of_get rows sid r)

pub get-update :
    (rows : List SuggestionRow) (sid j : ℕ) (f : SuggestionRow → SuggestionRow)
    → ((r : SuggestionRow) → r.id ≡ sid → (f r).id ≡ sid)
    → get_row (update_row rows sid f) j
      ≡ (if sid == j then map_row f (get_row rows j) else get_row rows j)
unfolding get_row update_row
get-update [] sid j f keeps = ground arith
get-update (x ∷ rows) sid j f keeps = ground (arith, keeps x, get-update rows sid j f keeps)

abbrev pub superseded : SuggestionRow → SuggestionRow → SuggestionRow
superseded row r = if is_sibling row r then record r { status = rejected } else r

pub get-supersede :
    (row : SuggestionRow) (rows : List SuggestionRow) (j : ℕ)
    → get_row (supersede row rows) j ≡ map_row (superseded row) (get_row rows j)
unfolding get_row supersede
get-supersede row [] j = refl
get-supersede row (x ∷ rows) j = ground (arith, get-supersede row rows j)
