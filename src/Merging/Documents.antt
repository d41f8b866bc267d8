-- ===== src/Merging/Documents.antt =====
-- The documents of an entity, as _fetch_entity_docs (backend/grooming.py) lists them for merge_entities.
-- The Paperless server is a parameter that answers by its own state. An exception of a GET is left out.
use paperless_iq.Prelude.{
  ℕ, ◌+◌, ◌≤◌, String, ◌≡◌, refl, sym, ap, ◌∙◌, ◌≢◌, inl, inr, Bool, Option, List, [], ◌∷◌, ◌++◌,
  arith, ltb, leb, if◌then◌else◌, leb→le, Bool-cases, length, take, All, length-append, nat_eq,
  string_eq, take_all,
}

pub data MergeType : Type 0 where
  tag correspondent document_type : MergeType

-- A page of a listing, or another status than 200.
pub data PageReply : Type 0 where
  page : List (ℕ × Option String) → PageReply
  refused : PageReply

-- The pages of `/api/documents/?tags__id=...&page_size=...` behind each other's `next`,
-- `/api/documents/bulk_edit/` for tags and for the others (None where raise_for_status raises), and
-- DELETE with whether it was 200 or 204.
pub record Paperless (S : Type 0) : Type 0 where
  pub document_pages : MergeType → ℕ → ℕ → S → List PageReply
  pub modify_tags : List ℕ → ℕ → ℕ → S → Option S
  pub set_entity : MergeType → List ℕ → ℕ → S → Option S
  pub delete_entity : MergeType → ℕ → S → Bool × S

-- `limit` of the call in merge_entities.
abbrev pub merge_limit : ℕ
merge_limit = 10000

-- The loop over the results of a page.
unfoldable pub append_items :
    ℕ → List (ℕ × Option String) → List (ℕ × Option String) → List (ℕ × Option String)
append_items limit docs [] = docs
append_items limit docs (item ∷ items) =
    let more = append_items limit (docs ++ item ∷ []) items in
    if leb limit (length (docs ++ item ∷ [])) then docs ++ item ∷ [] else more

-- `while url and len(docs) < limit`
unfoldable pub follow_pages :
    ℕ → List (ℕ × Option String) → List PageReply → List (ℕ × Option String)
unfolding append_items
follow_pages limit docs [] = docs
follow_pages limit docs (refused ∷ pages) = docs
follow_pages limit docs (page items ∷ pages) =
    let more = follow_pages limit (append_items limit docs items) pages in
    if ltb (length docs) limit then more else docs

unfoldable pub fetch_entity_docs {ℓ} :
    {S : Type ℓ} → (ℕ → ℕ → S → List PageReply) → ℕ → ℕ → S → List (ℕ × Option String)
unfolding follow_pages
fetch_entity_docs pages entity_id limit s =
    take limit (follow_pages limit [] (pages entity_id limit s))

-- What merge_entities gets for an entity.
unfoldable pub entity_docs :
    {S : Type 0} → Paperless S → MergeType → ℕ → S → List (ℕ × Option String)
unfolding fetch_entity_docs
entity_docs api entity_type entity_id s =
    fetch_entity_docs (api.document_pages entity_type) entity_id merge_limit s

-- All the results of the pages.
abbrev pub all_items : List PageReply → List (ℕ × Option String)
all_items [] = []
all_items (page items ∷ pages) = items ++ all_items pages
all_items (refused ∷ pages) = all_items pages

append_nil {ℓ} : {A : Type ℓ} (xs : List A) → xs ++ [] ≡ xs
append_nil [] = refl
append_nil (x ∷ xs) = ap (◌∷◌ x) (append_nil xs)

append_assoc {ℓ} : {A : Type ℓ} (xs ys zs : List A) → (xs ++ ys) ++ zs ≡ xs ++ (ys ++ zs)
append_assoc [] ys zs = refl
append_assoc (x ∷ xs) ys zs = ap (◌∷◌ x) (append_assoc xs ys zs)

empty {ℓ} : {A : Type ℓ} (xs : List A) → length xs ≡ 0 → xs ≡ []
empty [] h = refl
empty (x ∷ xs) h = absurd (omega arith)

append_items-all :
    (limit : ℕ) (docs items : List (ℕ × Option String))
    → length docs + length items ≤ limit
    → append_items limit docs items ≡ docs ++ items
unfolding append_items
append_items-all limit docs [] h = sym (append_nil docs)
append_items-all limit docs (item ∷ items) h =
    elim (Bool-cases (leb limit (length (docs ++ item ∷ [])))) [
      | inl e ↦
          let full : length items ≡ 0 =
            omega (arith, h, length-append docs (item ∷ []), leb→le limit _ e) in
          rw e (ap (λ l. docs ++ item ∷ l) (sym (empty items full)))
      | inr e ↦ rw e (
          append_items-all limit (docs ++ item ∷ []) items
            (omega (arith, h, length-append docs (item ∷ [])))
          ∙ append_assoc docs (item ∷ []) items)
    ]

follow_pages-all :
    (limit : ℕ) (docs : List (ℕ × Option String)) (pages : List PageReply)
    → All (λ p. p ≢ refused) pages
    → length docs + length (all_items pages) ≤ limit
    → follow_pages limit docs pages ≡ docs ++ all_items pages
unfolding follow_pages
follow_pages-all limit docs [] a h = sym (append_nil docs)
follow_pages-all limit docs (refused ∷ pages) a h = absurd (a.0 refl)
follow_pages-all limit docs (page items ∷ pages) a h = elim (Bool-cases (ltb (length docs) limit)) [
  | inl e ↦ rw e (
      ap (λ l. follow_pages limit l pages)
        (append_items-all limit docs items
          (omega (arith, h, length-append items (all_items pages))))
      ∙ (follow_pages-all limit (docs ++ items) pages a.1
            (omega (arith, h, length-append items (all_items pages), length-append docs items))
          ∙ append_assoc docs items (all_items pages)))
  | inr e ↦
      let full : length (items ++ all_items pages) ≡ 0 = ground (arith, h, e) in
      rw e
        (sym (append_nil docs) ∙ ap (λ l. docs ++ l) (sym (empty (items ++ all_items pages) full)))
]

-- A listing of which no page is refused and that fits the limit is fetched whole.
pub entity_docs-all :
    {S : Type 0} (api : Paperless S) (entity_type : MergeType) (entity_id : ℕ) (s : S)
    → All (λ p. p ≢ refused) (api.document_pages entity_type entity_id merge_limit s)
    → length (all_items (api.document_pages entity_type entity_id merge_limit s)) ≤ merge_limit
    → entity_docs api entity_type entity_id s
      ≡ all_items (api.document_pages entity_type entity_id merge_limit s)
unfolding entity_docs fetch_entity_docs
entity_docs-all api entity_type entity_id s a h =
    ap (take merge_limit) (
      follow_pages-all merge_limit [] (api.document_pages entity_type entity_id merge_limit s) a
        (omega (arith, h)))
    ∙ take_all merge_limit (all_items (api.document_pages entity_type entity_id merge_limit s)) h
