-- ===== src/Merging/Examples.antt =====
-- Runs of merge_entities (backend/grooming.py) with a server that keeps a list of documents and tags.
use mathlib.Core.Path.{subst}
use paperless_iq.Prelude.{
  ℕ, ◌≤◌, String, ◌≡◌, refl, sym, ap, ◌∙◌, Bool, true, ◌&&◌, ◌||◌, not, Option, none, some, List,
  [], ◌∷◌, ◌++◌, map, arith, eqb, if◌then◌else◌, eqb_iff, length, keep, any, nat_eq, string_eq,
  contains,
}
use paperless_iq.Prelude.Dict.{get, remove}
use paperless_iq.Merging.Documents.{
  tag, page, Paperless, append_items, follow_pages, fetch_entity_docs, entity_docs,
}
use paperless_iq.Merging.Service.{
  MergeAudit, GroomingDb, snapshot, reassign, reassigned, audit_rows, removed, merge_each,
  merge_entities,
}
use paperless_iq.Merging.Steps.{Documented}
use paperless_iq.Merging.Tags.{Listed, merge_entities_lem}

abbrev tagged : List (ℕ × ℕ) → ℕ → ℕ → Bool
tagged s d t = any (λ p. eqb p.0 d && eqb p.1 t) s

abbrev docs_with : ℕ → List (ℕ × ℕ) → List (ℕ × Option String)
docs_with t [] = []
docs_with t ((d, u) ∷ s) =
    let rest = docs_with t s in if eqb u t then (d, some "title") ∷ rest else rest

abbrev add_tag : List ℕ → ℕ → List (ℕ × ℕ) → List (ℕ × ℕ)
add_tag [] t s = s
add_tag (d ∷ docs) t s = (d, t) ∷ add_tag docs t s

abbrev drop_tag : List ℕ → ℕ → List (ℕ × ℕ) → List (ℕ × ℕ)
drop_tag docs t s = keep (λ p. not (contains docs p.0 && eqb p.1 t)) s

abbrev list_server : Paperless (List (ℕ × ℕ))
list_server = record {
  document_pages = λ e t n s. page (docs_with t s) ∷ [];
  modify_tags = λ docs add rem s. some (add_tag docs add (drop_tag docs rem s));
  set_entity = λ e docs id s. none;
  delete_entity = λ e t s. (true, keep (λ p. not (eqb p.1 t)) s);
}

append_nil : (xs : List (ℕ × Option String)) → xs ++ [] ≡ xs
append_nil [] = refl
append_nil (x ∷ xs) = ap (◌∷◌ x) (append_nil xs)

docs_with-tagged :
    (t : ℕ) (s : List (ℕ × ℕ)) (d : ℕ) → contains (map (λ e. e.0) (docs_with t s)) d ≡ tagged s d t
docs_with-tagged t [] d = refl
docs_with-tagged t ((c, u) ∷ s) d = ground (arith, docs_with-tagged t s d)

add_tag-tagged :
    (docs : List ℕ) (add : ℕ) (s : List (ℕ × ℕ)) (d t : ℕ)
    → tagged (add_tag docs add s) d t ≡ ((contains docs d && eqb add t) || tagged s d t)
add_tag-tagged [] add s d t = refl
add_tag-tagged (c ∷ docs) add s d t = ground (arith, add_tag-tagged docs add s d t)

drop_tag-tagged :
    (docs : List ℕ) (rem : ℕ) (s : List (ℕ × ℕ)) (d t : ℕ)
    → tagged (drop_tag docs rem s) d t ≡ (not (contains docs d && eqb t rem) && tagged s d t)
drop_tag-tagged docs rem [] d t = ground arith
drop_tag-tagged docs rem ((c, u) ∷ s) d t = ground (
  arith,
  drop_tag-tagged docs rem s d t,
  eqb_iff c d,
  eqb_iff u t,
  ap (contains docs),
  ap (λ x. eqb x rem),
)

delete-tagged :
    (x : ℕ) (s : List (ℕ × ℕ)) (d t : ℕ)
    → tagged (keep (λ p. not (eqb p.1 x)) s) d t ≡ (not (eqb t x) && tagged s d t)
delete-tagged x [] d t = ground arith
delete-tagged x ((c, u) ∷ s) d t = ground (arith, delete-tagged x s d t, eqb_iff u t)

list_server-Documented : Documented list_server tagged
list_server-Documented = record {
  listed = λ t s a d.
      ap (λ l. contains (map (λ e. e.0) l) d) (append_nil (docs_with t s)) ∙ docs_with-tagged t s d;
  edited = λ docs add rem s s' h d t.
      let same : add_tag docs add (drop_tag docs rem s) ≡ s' = cc h in
      ap (λ x. tagged x d t) (sym same)
      ∙ ground (
        arith,
        add_tag-tagged docs add (drop_tag docs rem s) d t,
        drop_tag-tagged docs rem s d t,
        eqb_iff add t,
        eqb_iff t add,
      );
  deleted = λ t s d u e. ground (arith, delete-tagged t s d u, e);
  not_added = λ t s d e. ground (arith, delete-tagged t s d t, e);
}

-- Tag 1 is kept, tags 2 and 3 are merged into it.
abbrev before_merge : List (ℕ × ℕ)
before_merge = (10, 1) ∷ (11, 2) ∷ (12, 3) ∷ (12, 5) ∷ (13, 5) ∷ []

abbrev after_merge : List (ℕ × ℕ)
after_merge = (12, 1) ∷ (11, 1) ∷ (10, 1) ∷ (12, 5) ∷ (13, 5) ∷ []

abbrev grooming_db : GroomingDb
grooming_db = record { names = (1, "tax") ∷ (2, "taxes") ∷ []; audit = [] }

abbrev merge_row : ℕ → String → MergeAudit
merge_row doc name = record {
  document_id = doc;
  document_title = some "title";
  field_name = tag;
  previous_value = name;
  new_value = "tax";
  actor = "ann";
}

abbrev merged_db : GroomingDb
merged_db = record { names = (1, "tax") ∷ []; audit = merge_row 11 "taxes" ∷ merge_row 12 "?" ∷ [] }

tags_merged :
    merge_entities list_server (λ id. "?") tag 1 (2 ∷ 3 ∷ []) "ann" before_merge grooming_db
    ≡ (after_merge, merged_db, some (record { documents_updated = 2; entities_deleted = 2 }))
unfolding merge_entities merge_each entity_docs fetch_entity_docs follow_pages append_items
    reassigned reassign removed audit_rows snapshot get remove
tags_merged = refl

list_server-Listed :
    Listed list_server (λ id. "?") tagged list_server-Documented 1 (2 ∷ 3 ∷ []) before_merge
unfolding entity_docs fetch_entity_docs follow_pages append_items reassigned reassign
list_server-Listed = (
  (((λ e. cc), tt), omega arith),
  λ s₁ e.
      let same : add_tag (11 ∷ []) 1 (drop_tag (11 ∷ []) 2 before_merge) ≡ s₁ = cc e in
      (
        (
          ((λ q. cc), tt),
          subst (λ s. length (docs_with 3 (keep (λ p. not (eqb p.1 2)) s) ++ []) ≤ 10000) same
              (omega arith),
        ),
        λ s₂ q. tt,
      ),
)

merge_entities_lem_example : tagged after_merge 12 1 ≡ true
merge_entities_lem_example =
    merge_entities_lem list_server (λ id. "?") tagged list_server-Documented 1 (2 ∷ 3 ∷ []) "ann"
      before_merge after_merge grooming_db merged_db
      (record { documents_updated = 2; entities_deleted = 2 }) (refl, (refl, tt)) list_server-Listed
      tags_merged 12 1
