-- ===== src/Merging/Tags.antt =====
-- The tags of the documents across merge_entities (backend/grooming.py).
use mathlib.Core.Path.{subst}
use paperless_iq.Prelude.{
  ℕ, String, ◌≡◌, refl, sym, ap, ◌∙◌, inl, inr, Bool, false, ◌||◌, Option, none, some, List, [],
  ◌∷◌, map, arith, eqb, if◌then◌else◌, eqb_iff, Option-cases, any, All, nat_eq, string_eq, contains,
}
use paperless_iq.Merging.Documents.{tag, Paperless, entity_docs}
use paperless_iq.Merging.Service.{
  GroomingDb, MergeCount, snapshot, reassigned, removed, after_reassign, merge_each, kept_db,
  answer_count, merge_entities,
}
use paperless_iq.Merging.Steps.{Documented, FullListing, one_step, Merged, after_step}

module _ {S : Type 0} (api : Paperless S) (show_id : ℕ → String) (has_tag : S → ℕ → ℕ → Bool)
    (law : Documented api has_tag) where
  -- At each step of the merge, the listing of the removed tag is full.
  abbrev pub Listed : ℕ → List ℕ → S → Type 0
  Listed keep_id [] s = Unit
  Listed keep_id (r ∷ rs) s =
      FullListing api show_id has_tag law r s
      × ((s₁ : S)
          → reassigned api show_id tag (map (λ e. e.0) (entity_docs api tag r s)) keep_id r s
            ≡ some s₁
          → Listed keep_id rs (api.delete_entity tag r s₁).1)

  merged_tags :
      (actor keep_name : String) (keep_id : ℕ) (remove_ids : List ℕ) (s s' : S)
      (db db' : GroomingDb) (count count' : MergeCount)
      → All (λ r. eqb keep_id r ≡ false) remove_ids
      → Listed keep_id remove_ids s
      → merge_each api show_id tag actor keep_name keep_id remove_ids s db count
        ≡ (s', some (db', count'))
      → (d u : ℕ) → Merged api show_id has_tag law keep_id remove_ids s s' d u
  unfolding merge_each removed
  merged_tags actor keep_name keep_id [] s s' db db' count count' ks full h d u =
      let same : s ≡ s' = ap (λ x. x.0) h in
      ground (
        arith,
        ap (λ x. has_tag x d u) same,
        ap (λ x. has_tag x d keep_id) same,
        ap (has_tag s d),
        eqb_iff u keep_id,
      )
  merged_tags actor keep_name keep_id (r ∷ rs) s s' db db' count count' ks full h d u =
      elim (Option-cases
        (reassigned api show_id tag (map (λ e. e.0) (entity_docs api tag r s)) keep_id r s)) [
          | inl n ↦ absurd (stopped n)
          | inr (s₁, n) ↦
              let after =
                removed api show_id tag actor keep_name r (entity_docs api tag r s) s₁ db count in
              after_step api show_id has_tag law keep_id r rs s (api.delete_entity tag r s₁).1 s' d
                u ks.0 ks.1 (one_step api show_id has_tag law keep_id r s s₁ ks.0 full.0 n d)
                (merged_tags actor keep_name keep_id rs (api.delete_entity tag r s₁).1 s' after.1
                  db' after.2 count' ks.1 (full.1 s₁ n) (went_on s₁ n) d u)
        ]
    where
      stopped :
          reassigned api show_id tag (map (λ e. e.0) (entity_docs api tag r s)) keep_id r s ≡ none
          → ⊥
      stopped n = cc (
          sym (
            ap
              (λ o.
                (after_reassign api show_id tag o s (λ s₁.
                  let q =
                    removed api show_id tag actor keep_name r (entity_docs api tag r s) s₁ db
                      count in
                  merge_each api show_id tag actor keep_name keep_id rs q.0 q.1 q.2)).1)
              n)
          ∙ ap (λ x. x.1) h)

      went_on :
          (s₁ : S)
          → reassigned api show_id tag (map (λ e. e.0) (entity_docs api tag r s)) keep_id r s
            ≡ some s₁
          → merge_each api show_id tag actor keep_name keep_id rs
              (removed api show_id tag actor keep_name r (entity_docs api tag r s) s₁ db count).0
              (removed api show_id tag actor keep_name r (entity_docs api tag r s) s₁ db count).1
              (removed api show_id tag actor keep_name r (entity_docs api tag r s) s₁ db count).2
            ≡ (s', some (db', count'))
      went_on s₁ n =
          sym (
            ap
              (λ o. after_reassign api show_id tag o s (λ s₁.
                let q =
                  removed api show_id tag actor keep_name r (entity_docs api tag r s) s₁ db count in
                merge_each api show_id tag actor keep_name keep_id rs q.0 q.1 q.2))
              n)
          ∙ h

  -- When `merge_entities` answers for tags that do not include the kept one, no page of a listing that
  -- it follows is refused, none of the removed tags has more documents than the limit when its turn
  -- comes, and the server does what is documented of it, then a document has the kept tag exactly when it had
  -- it or one of the removed tags, has none of the removed ones, and every other tag is as before.
  pub merge_entities_lem :
      (keep_id : ℕ) (remove_ids : List ℕ) (actor : String) (s s' : S) (db db' : GroomingDb)
      (count : MergeCount)
      → All (λ r. eqb keep_id r ≡ false) remove_ids
      → Listed keep_id remove_ids s
      → merge_entities api show_id tag keep_id remove_ids actor s db ≡ (s', db', some count)
      → (d u : ℕ)
      → has_tag s' d u ≡ (
          if eqb u keep_id
          then (has_tag s d keep_id || any (has_tag s d) remove_ids)
          else if contains remove_ids u
          then false
          else has_tag s d u)
  unfolding merge_entities
  merge_entities_lem keep_id remove_ids actor s s' db db' count ks full h d u =
      answered
        (merge_each api show_id tag actor (snapshot api show_id tag db keep_id) keep_id remove_ids s
          db (record { documents_updated = 0; entities_deleted = 0 }))
        refl h
    where
      answered :
          (r : S × Option (GroomingDb × MergeCount))
          → merge_each api show_id tag actor
              (snapshot api show_id tag db keep_id)
              keep_id
              remove_ids
              s
              db
              (record { documents_updated = 0; entities_deleted = 0 })
            ≡ r
          → ◌≡◌ {A = S × GroomingDb × Option MergeCount}
              (r.0, kept_db api show_id tag r.1 db, answer_count api show_id tag r.1)
              (s', db', some count)
          → Merged api show_id has_tag law keep_id remove_ids s s' d u
      answered (s₁, none) e q = absurd (cc (ap (λ x. x.2) q))
      answered (s₁, some (db₁, count₁)) e q =
          let same : s₁ ≡ s' = ap (λ x. x.0) q in
          subst (λ x. Merged api show_id has_tag law keep_id remove_ids s x d u) same
            (merged_tags actor (snapshot api show_id tag db keep_id) keep_id remove_ids s s₁ db db₁
              (record { documents_updated = 0; entities_deleted = 0 }) count₁ ks full e d u)
