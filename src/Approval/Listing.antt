-- ===== src/Approval/Listing.antt =====
-- The pages of `list` (backend/approval_queue.py).
use mathlib.Core.List.{Perm, map-append}
use mathlib.Core.List.Perm
use Prim.Native.Nat.add
use paperless_iq.Prelude.{
  ℕ, zero, suc, ◌+◌, ◌-◌, ◌*◌, ◌≤◌, ◌≡◌, refl, sym, ap, ◌∙◌, inl, inr, Option, List, [], ◌∷◌, ◌++◌,
  map, arith, leb, leb→le, Bool-cases, length, take, drop, keep, All, length-take, nat_eq,
  string_eq, length-map, take_all,
}
use paperless_iq.Approval.Rows.{Status, SuggestionRow, MetadataSuggestion, orm_to_pydantic, Db}
use paperless_iq.Approval.Operations.{insert_newest, newest_first, status_is, list_page}

-- No row is older than the one behind it.
abbrev pub Descending : List SuggestionRow → Type 0
Descending [] = Unit {0}
Descending (r ∷ rows) = All (λ x. x.created_at ≤ r.created_at) rows × Descending rows

insert_newest-perm :
    (r : SuggestionRow) (rows : List SuggestionRow) → Perm (insert_newest r rows) (r ∷ rows)
unfolding insert_newest
insert_newest-perm r [] = Perm.refl (r ∷ [])
insert_newest-perm r (x ∷ rows) = elim (Bool-cases (leb x.created_at r.created_at)) [
  | inl e ↦ rw e (Perm.refl (r ∷ x ∷ rows))
  | inr e ↦ rw e (Perm.trans (Perm.cons x (insert_newest-perm r rows)) (Perm.swap r x rows))
]

newest_first-perm : (rows : List SuggestionRow) → Perm (newest_first rows) rows
unfolding newest_first
newest_first-perm [] = Perm.refl []
newest_first-perm (r ∷ rows) =
    Perm.trans (insert_newest-perm r (newest_first rows)) (Perm.cons r (newest_first-perm rows))

All-insert :
    (b : ℕ) (r : SuggestionRow) (rows : List SuggestionRow)
    → r.created_at ≤ b
    → All (λ x. x.created_at ≤ b) rows
    → All (λ x. x.created_at ≤ b) (insert_newest r rows)
unfolding insert_newest
All-insert b r [] h a = (h, tt)
All-insert b r (x ∷ rows) h a = ground (arith, All-insert b r rows)

All-mono :
    (b c : ℕ) (rows : List SuggestionRow)
    → b ≤ c
    → All (λ x. x.created_at ≤ b) rows
    → All (λ x. x.created_at ≤ c) rows
All-mono b c [] h a = tt
All-mono b c (x ∷ rows) h a = (omega arith, All-mono b c rows h a.1)

Descending-insert :
    (r : SuggestionRow) (rows : List SuggestionRow)
    → Descending rows
    → Descending (insert_newest r rows)
unfolding insert_newest
Descending-insert r [] d = (tt, tt)
Descending-insert r (x ∷ rows) d = elim (Bool-cases (leb x.created_at r.created_at)) [
  | inl e ↦ rw e (
    (
      leb→le x.created_at r.created_at e,
      All-mono x.created_at r.created_at rows (leb→le x.created_at r.created_at e) d.0,
    ),
    d,
  )
  | inr e ↦ rw e (All-insert x.created_at r rows (ground arith) d.0, Descending-insert r rows d.1)
]

-- Sorting loses no row, adds none, and leaves none behind an older one.
newest_first_sorts :
    (rows : List SuggestionRow) → Perm (newest_first rows) rows × Descending (newest_first rows)
unfolding newest_first
newest_first_sorts rows = (newest_first-perm rows, go rows)
  where
    go : (xs : List SuggestionRow) → Descending (newest_first xs)
    go = elim [ [] ↦ tt | x ∷ (xs → ih) ↦ Descending-insert x (newest_first xs) ih ]

length-insert_newest :
    (r : SuggestionRow) (rows : List SuggestionRow)
    → length (insert_newest r rows) ≡ suc (length rows)
unfolding insert_newest
length-insert_newest r [] = refl
length-insert_newest r (x ∷ rows) = ground (arith, length-insert_newest r rows)

pub length-newest : (rows : List SuggestionRow) → length (newest_first rows) ≡ length rows
unfolding newest_first
length-newest [] = refl
length-newest (r ∷ rows) =
    omega (arith, length-insert_newest r (newest_first rows), length-newest rows)

-- The items of the pages 1 to `n`, one after the other.
abbrev pub pages : Option Status → ℕ → ℕ → Db → List MetadataSuggestion
pages status zero page_size db = []
pages status (suc n) page_size db =
    pages status n page_size db ++ (list_page status (suc n) page_size db).0

module _ {ℓ} {A : Type ℓ} where
  no_rows : List A
  no_rows = []

  take-nil : (m : ℕ) → take m no_rows ≡ []
  unfolding no_rows
  take-nil zero = refl
  take-nil (suc m) = refl

pub take-add {ℓ} :
    {A : Type ℓ} (m k : ℕ) (xs : List A) → take m xs ++ take k (drop m xs) ≡ take (m + k) xs
unfolding no_rows
take-add zero k xs = ap (λ n. take n xs) (omega arith)
take-add (suc m) k [] = take-nil k ∙ sym (take-nil (suc m + k))
take-add (suc m) k (x ∷ xs) =
    ap (◌∷◌ x) (take-add m k xs) ∙ ap (λ n. take n (x ∷ xs)) (sym (add.suc m k))

module _ (status : Option Status) (page_size : ℕ) (db : Db) where
  abbrev chosen : List SuggestionRow
  chosen = newest_first (keep (status_is status) db.suggestions)

  zero_pages : 0 * page_size ≡ 0
  zero_pages = grind arith

  more_pages : (n : ℕ) → n * page_size + page_size ≡ suc n * page_size
  more_pages n = grind arith

  same_page : (n : ℕ) → (suc n - 1) * page_size ≡ n * page_size
  same_page n = ap (λ m. m * page_size) (omega arith)

  pages-take :
      (n : ℕ) → pages status n page_size db ≡ map orm_to_pydantic (take (n * page_size) chosen)
  unfolding list_page
  pages-take zero = ap (λ m. map orm_to_pydantic (take m chosen)) (sym zero_pages)
  pages-take (suc n) =
      ap (λ l. l ++ (list_page status (suc n) page_size db).0) (pages-take n)
      ∙ (ap
            (λ m.
              map orm_to_pydantic (take (n * page_size) chosen)
              ++ map orm_to_pydantic (take page_size (drop m chosen)))
            (same_page n)
          ∙ (sym (
                map-append orm_to_pydantic (take (n * page_size) chosen)
                  (take page_size (drop (n * page_size) chosen)))
              ∙ (ap (map orm_to_pydantic) (take-add (n * page_size) page_size chosen)
                  ∙ ap (λ m. map orm_to_pydantic (take m chosen)) (more_pages n))))

  -- The pages from 1 to `n`, when they reach the reported total, hold one after the other the
  -- suggestions of the selected rows, each row once and none behind an older one; and the page `n`
  -- has at most `page_size` items.
  pub pages_cover :
      (n : ℕ)
      → (list_page status n page_size db).1 ≤ n * page_size
      → (rows : List SuggestionRow) × Perm rows (keep (status_is status) db.suggestions)
        × Descending rows
        × (pages status n page_size db ≡ map orm_to_pydantic rows)
        × (length (list_page status n page_size db).0 ≤ page_size)
  unfolding list_page
  pages_cover n h = (
    chosen,
    (newest_first_sorts (keep (status_is status) db.suggestions)).0,
    (newest_first_sorts (keep (status_is status) db.suggestions)).1,
    pages-take n
        ∙ ap (map orm_to_pydantic) (
            take_all (n * page_size) chosen
              (omega (arith, h, length-newest (keep (status_is status) db.suggestions)))),
    omega (
      arith,
      length-map orm_to_pydantic (take page_size (drop ((n - 1) * page_size) chosen)),
      length-take page_size (drop ((n - 1) * page_size) chosen),
    ),
  )
