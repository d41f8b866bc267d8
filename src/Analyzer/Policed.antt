-- ===== src/Analyzer/Policed.antt =====
-- What _apply_creation_policy (backend/analyzer.py) leaves of a suggestion.
use mathlib.Core.Path.{subst}
use paperless_iq.Prelude.{
  String, ◌≡◌, refl, sym, ap, ◌∙◌, inl, inr, true, Option, none, some, List, [], ◌∷◌, Option-cases,
  keep, All, All-keep, nat_eq, string_eq, contains,
}
use paperless_iq.Approval.Py.{Py}
use paperless_iq.Approval.Entities.{
  EntityType, tags, correspondents, document_types, storage_paths, Policy, allow_new, existing_only,
  PolicyConfig,
}
use paperless_iq.Approval.Rows.{MetadataSuggestion}
use paperless_iq.Analyzer.Policy.{
  Prefetched, then_with, existing, is_known, policed_tags, policed_name, valid_fields,
  apply_creation_policy,
}
use paperless_iq.Analyzer.Known.{
  KnownName, NamePoliced, TagsPoliced, inside, contains-keep, kept_pass, weaken, known_name,
  known_is, name_policed,
}

bound {ℓ κ} :
    {A : Type ℓ} {B : Type κ} (o : Option A) (f : A → Option B) (b : B)
    → then_with o f ≡ some b
    → (a : A) × (o ≡ some a) × (f a ≡ some b)
bound none f b h = absurd (cc h)
bound (some a) f b h = (a, refl, h)

module _ {F : Type 0} (py : Py F) (list_entities : EntityType → Option (List String)) where
  tags_kept :
      (policy : Policy) (names : List String) (known : Option (List String))
      → (policy ≡ existing_only → names ≡ [])
      → TagsPoliced py policy names names known
  tags_kept policy names known only = record {
    new_kept = λ h. refl;
    never_other = inside names names (λ t h. h);
    known_only = λ h ns k. subst (All (KnownName py ns)) (sym (only h)) tt;
    known_kept = λ ns k t q h. h;
  }

  tags_filtered :
      (names known : List String)
      → TagsPoliced py existing_only names (keep (is_known py known) names) (some known)
  tags_filtered names known = record {
    new_kept = λ e. absurd (cc (e));
    never_other =
        All-keep (λ t. contains names t ≡ true) (is_known py known) names
          (inside names names (λ t h. h));
    known_only = λ e ns k.
        let same : known ≡ ns = cc k in
        subst (λ l. All (KnownName py l) (keep (is_known py known) names)) same
          (weaken (λ t. is_known py known t ≡ true) (KnownName py known)
            (keep (is_known py known) names) (known_name py known)
            (kept_pass (is_known py known) names));
    known_kept = λ ns k t q h.
        let same : ns ≡ known = cc k in
        contains-keep (is_known py known) names t
          (ap (λ l. is_known py l t) (sym same) ∙ known_is py ns t q) h;
  }

  tags_policed :
      (policy : Policy) (all : Option (List String)) (names after : List String)
      → policed_tags py list_entities policy all names ≡ some after
      → TagsPoliced py policy names after (existing list_entities all tags)
  unfolding policed_tags
  tags_policed allow_new all names after h =
      let same : names ≡ after = cc h in
      subst (λ a. TagsPoliced py allow_new names a (existing list_entities all tags)) same
        (tags_kept allow_new names (existing list_entities all tags) (λ e. absurd (cc (e))))
  tags_policed existing_only all [] after h =
      let same : [] ≡ after = cc h in
      subst (λ a. TagsPoliced py existing_only [] a (existing list_entities all tags)) same
        (tags_kept existing_only [] (existing list_entities all tags) (λ e. refl))
  tags_policed existing_only all (name ∷ names) after h =
      elim (Option-cases (existing list_entities all tags)) [
        | inl n ↦ absurd (cc (rw n at h))
        | inr (known, n) ↦ rw n (
            let same : keep (is_known py known) (name ∷ names) ≡ after = cc (rw n at h) in
            subst (λ a. TagsPoliced py existing_only (name ∷ names) a (some known)) same
              (tags_filtered (name ∷ names) known))
      ]

  -- What is promised of a suggestion to which the policies have been applied.
  pub record Policed (s after : MetadataSuggestion) (config : PolicyConfig) (all : Prefetched)
      : Type 0 where
    pub tags_policed :
        TagsPoliced py config.tag_creation_policy s.tags after.tags
          (existing list_entities all.all_tags tags)
    pub correspondent_policed :
        NamePoliced py config.correspondent_creation_policy s.correspondent after.correspondent
          (existing list_entities all.all_correspondents correspondents)
    pub document_type_policed :
        NamePoliced py config.doctype_creation_policy s.document_type after.document_type
          (existing list_entities all.all_document_types document_types)
    pub storage_path_policed :
        NamePoliced py config.storage_path_creation_policy s.storage_path after.storage_path
          (existing list_entities all.all_storage_paths storage_paths)
    pub title : after.title ≡ s.title

  -- When `apply_creation_policy` answers, each of the tags, the correspondent, the document type and
  -- the storage path obeys its own policy: under allow_new it is unchanged; under existing_only what
  -- is left, an empty text aside, reads like a name of the existing ones, and a known name stays. No
  -- policy brings in a name that was not suggested, and the title stays.
  pub apply_creation_policy_lem :
      (s after : MetadataSuggestion) (config : PolicyConfig) (all : Prefetched)
      → apply_creation_policy py list_entities s config all ≡ some after
      → Policed s after config all
  unfolding apply_creation_policy
  apply_creation_policy_lem s after config all h =
      let a =
        bound (policed_tags py list_entities config.tag_creation_policy all.all_tags s.tags) _ after
          h in
      let b =
        bound
          (policed_name py list_entities config.correspondent_creation_policy all.all_correspondents
            correspondents s.correspondent)
          _ after a.2 in
      let c =
        bound
          (policed_name py list_entities config.doctype_creation_policy all.all_document_types
            document_types s.document_type)
          _ after b.2 in
      let d =
        bound
          (policed_name py list_entities config.storage_path_creation_policy all.all_storage_paths
            storage_paths s.storage_path)
          _ after c.2 in
      let same : record s {
        tags = a.0;
        correspondent = b.0;
        document_type = c.0;
        storage_path = d.0;
        custom_fields = valid_fields py all.custom_field_defs s.custom_fields;
      }
          ≡ after =
        cc d.2 in
      subst (λ t. Policed s t config all) same
        (record {
          tags_policed = tags_policed config.tag_creation_policy all.all_tags s.tags a.0 a.1;
          correspondent_policed =
              name_policed py list_entities config.correspondent_creation_policy
                all.all_correspondents correspondents s.correspondent b.0 b.1;
          document_type_policed =
              name_policed py list_entities config.doctype_creation_policy all.all_document_types
                document_types s.document_type c.0 c.1;
          storage_path_policed =
              name_policed py list_entities config.storage_path_creation_policy
                all.all_storage_paths storage_paths s.storage_path d.0 d.1;
          title = refl;
        })
