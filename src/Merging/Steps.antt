-- ===== src/Merging/Steps.antt =====
-- The tags of the documents when one entity is merged by merge_entities (backend/grooming.py).
use paperless_iq.Prelude.{
  ℕ, ◌≤◌, String, ◌≡◌, refl, sym, ap, ◌∙◌, ◌≢◌, inl, inr, Bool, true, false, ◌&&◌, ◌||◌, not, some,
  List, [], ◌∷◌, map, arith, eqb, if◌then◌else◌, eqb_iff, Bool-cases, length, any, All, nat_eq,
  string_eq, contains,
}
use paperless_iq.Merging.Documents.{
  tag, refused, Paperless, merge_limit, entity_docs, all_items, entity_docs-all,
}
use paperless_iq.Merging.Service.{reassign, reassigned}

-- What is documented of the server: the pages of a listing, when none is refused, hold the documents
-- with the tag, a bulk edit adds and removes the tags of
-- the listed documents, and the deletion of a tag leaves the other tags alone.
pub record Documented {S : Type 0} (api : Paperless S) (has_tag : S → ℕ → ℕ → Bool) : Type 0 where
  pub listed :
      (t : ℕ) (s : S)
      → All (λ p. p ≢ refused) (api.document_pages tag t merge_limit s)
      → (d : ℕ)
      → contains (map (λ e. e.0) (all_items (api.document_pages tag t merge_limit s))) d
        ≡ has_tag s d t
  pub edited :
      (docs : List ℕ) (add rem : ℕ) (s s' : S)
      → api.modify_tags docs add rem s ≡ some s'
      → (d t : ℕ)
      → has_tag s' d t ≡ (
          if contains docs d
          then (eqb t add || (not (eqb t rem) && has_tag s d t))
          else has_tag s d t)
  pub deleted :
      (t : ℕ) (s : S) (d u : ℕ)
      → eqb u t ≡ false
      → has_tag (api.delete_entity tag t s).1 d u ≡ has_tag s d u
  pub not_added :
      (t : ℕ) (s : S) (d : ℕ)
      → has_tag s d t ≡ false
      → has_tag (api.delete_entity tag t s).1 d t ≡ false

module _ {S : Type 0} (api : Paperless S) (show_id : ℕ → String) (has_tag : S → ℕ → ℕ → Bool)
    (law : Documented api has_tag) where
  -- No page of the tag's listing is refused, and it fits the limit.
  abbrev pub FullListing : ℕ → S → Type 0
  FullListing t s =
      All (λ p. p ≢ refused) (api.document_pages tag t merge_limit s)
      × (length (all_items (api.document_pages tag t merge_limit s)) ≤ merge_limit)

  listed_docs :
      (t : ℕ) (s : S)
      → FullListing t s
      → (d : ℕ) → contains (map (λ e. e.0) (entity_docs api tag t s)) d ≡ has_tag s d t
  listed_docs t s full d =
      ap (λ docs. contains (map (λ e. e.0) docs) d) (entity_docs-all api tag t s full.0 full.1)
      ∙ law.listed t s full.0 d

  edited_tags :
      (docs : List ℕ) (add rem : ℕ) (s s' : S)
      → reassigned api show_id tag docs add rem s ≡ some s'
      → (d t : ℕ)
      → has_tag s' d t ≡ (
          if contains docs d
          then (eqb t add || (not (eqb t rem) && has_tag s d t))
          else has_tag s d t)
  unfolding reassigned reassign
  edited_tags [] add rem s s' h d t = let same : s ≡ s' = cc h in ap (λ x. has_tag x d t) (sym same)
  edited_tags (x ∷ docs) add rem s s' h d t = law.edited (x ∷ docs) add rem s s' h d t

  -- The tags after one entity has been merged into another and deleted.
  pub one_step :
      (keep_id r : ℕ) (s s' : S)
      → eqb keep_id r ≡ false
      → FullListing r s
      → reassigned api show_id tag (map (λ e. e.0) (entity_docs api tag r s)) keep_id r s ≡ some s'
      → (d u : ℕ)
      → has_tag (api.delete_entity tag r s').1 d u ≡ (
          if eqb u keep_id
          then (has_tag s d keep_id || has_tag s d r)
          else if eqb u r
          then false
          else has_tag s d u)
  one_step keep_id r s s' k full h d u = elim (Bool-cases (eqb u r)) [
    | inl e ↦
        let same : u ≡ r = (eqb_iff u r).0 e in
        let other : eqb u keep_id ≡ false = ground (arith, same, k) in
        let gone : has_tag s' d r ≡ false = ground (
          arith,
          edited_tags (map (λ e. e.0) (entity_docs api tag r s)) keep_id r s s' h d r,
          listed_docs r s full d,
          k,
        ) in
        rw other
          (rw e (ap (has_tag (api.delete_entity tag r s').1 d) same ∙ law.not_added r s' d gone))
    | inr e ↦
        law.deleted r s' d u e
        ∙ (edited_tags (map (λ e. e.0) (entity_docs api tag r s)) keep_id r s s' h d u
            ∙ merged (eqb u keep_id) refl e)
  ]
    where
      docs : List ℕ
      docs = map (λ e. e.0) (entity_docs api tag r s)

      merged :
          (b : Bool)
          → eqb u keep_id ≡ b
          → eqb u r ≡ false
          → (if contains (map (λ e. e.0) (entity_docs api tag r s)) d
              then (eqb u keep_id || (not (eqb u r) && has_tag s d u))
              else has_tag s d u)
            ≡ (if eqb u keep_id
                then (has_tag s d keep_id || has_tag s d r)
                else if eqb u r
                then false
                else has_tag s d u)
      merged true q e =
          let same : u ≡ keep_id = (eqb_iff u keep_id).0 q in
          rw q (
            rw (listed_docs r s full d) (
              ap (λ x. if has_tag s d r then true else has_tag s d x) same
              ∙ or_if (has_tag s d r) (has_tag s d keep_id)))
        where
          or_if : (a b : Bool) → (if a then true else b) ≡ (b || a)
          or_if true true = refl
          or_if true false = refl
          or_if false true = refl
          or_if false false = refl
      merged false q e = rw (q, e) (either (contains (map (λ e. e.0) (entity_docs api tag r s)) d))
        where
          either : (b : Bool) → (if b then has_tag s d u else has_tag s d u) ≡ has_tag s d u
          either true = refl
          either false = refl

  eqb_sym : (a b : ℕ) → eqb a b ≡ eqb b a
  eqb_sym a b = ground (arith, eqb_iff a b, eqb_iff b a)

  -- A tag that was lost to the merged one is answer_count already.
  any_after :
      (r : ℕ) (f g : ℕ → Bool) (b : Bool)
      → b ≡ f r
      → (rs : List ℕ) → All (λ x. g x ≡ (if eqb x r then false else f x)) rs
      → (b || any g rs) ≡ (b || any f rs)
  any_after r f g b e [] a = refl
  any_after r f g b e (x ∷ rs) a = elim (Bool-cases (eqb x r)) [
    | inl q ↦ ground (arith, a.0, q, e, ap f ((eqb_iff x r).0 q), any_after r f g b e rs a.1)
    | inr q ↦ ground (arith, a.0, q, e, any_after r f g b e rs a.1)
  ]

  -- The tags after all the entities have been merged.
  abbrev pub Merged : ℕ → List ℕ → S → S → ℕ → ℕ → Type 0
  Merged keep_id remove_ids s s' d u = has_tag s' d u ≡ (
      if eqb u keep_id
      then (has_tag s d keep_id || any (has_tag s d) remove_ids)
      else if contains remove_ids u
      then false
      else has_tag s d u)

  pub after_step :
      (keep_id r : ℕ) (rs : List ℕ) (s s₂ s' : S) (d u : ℕ)
      → eqb keep_id r ≡ false
      → All (λ x. eqb keep_id x ≡ false) rs
      → ((v : ℕ)
          → has_tag s₂ d v ≡ (
              if eqb v keep_id
              then (has_tag s d keep_id || has_tag s d r)
              else if eqb v r
              then false
              else has_tag s d v))
      → Merged keep_id rs s₂ s' d u
      → Merged keep_id (r ∷ rs) s s' d u
  after_step keep_id r rs s s₂ s' d u k ks step m = m ∙ by_case (eqb u keep_id) refl
    where
      each :
          (xs : List ℕ)
          → All (λ x. eqb keep_id x ≡ false) xs
          → All (λ x. has_tag s₂ d x ≡ (if eqb x r then false else has_tag s d x)) xs
      each = elim [
        | [] ↦ λ a. tt
        | x ∷ (xs → ih) ↦ λ a. (
          step x
              ∙ ap
                  (λ (b : Bool).
                    if b
                    then (has_tag s d keep_id || has_tag s d r)
                    else if eqb x r
                    then false
                    else has_tag s d x)
                  (eqb_sym x keep_id ∙ a.0),
          ih a.1,
        )
      ]

      kept_tag : has_tag s₂ d keep_id ≡ (has_tag s d keep_id || has_tag s d r)
      kept_tag =
          step keep_id
          ∙ ap
              (λ (b : Bool).
                if b
                then (has_tag s d keep_id || has_tag s d r)
                else if eqb keep_id r
                then false
                else has_tag s d keep_id)
              ((eqb_iff keep_id keep_id).1 refl)

      or_assoc : (a b c : Bool) → ((a || b) || c) ≡ (a || (b || c))
      or_assoc true b c = refl
      or_assoc false b c = refl

      by_case :
          (b : Bool)
          → eqb u keep_id ≡ b
          → (if eqb u keep_id
              then (has_tag s₂ d keep_id || any (has_tag s₂ d) rs)
              else if contains rs u
              then false
              else has_tag s₂ d u)
            ≡ (if eqb u keep_id
                then (has_tag s d keep_id || any (has_tag s d) (r ∷ rs))
                else if contains (r ∷ rs) u
                then false
                else has_tag s d u)
      by_case true e = rw e (
          ap (λ b. b || any (has_tag s₂ d) rs) kept_tag
          ∙ (or_assoc (has_tag s d keep_id) (has_tag s d r) (any (has_tag s₂ d) rs)
              ∙ ap (λ b. has_tag s d keep_id || b)
                  (any_after r (has_tag s d) (has_tag s₂ d) (has_tag s d r) refl rs (each rs ks))))
      by_case false e = rw e (ground (arith, step u, e, eqb_sym u r))
