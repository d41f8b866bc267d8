-- ===== src/Analyzer/Policy.antt =====
-- _apply_creation_policy (backend/analyzer.py). The client's list_entities, which asks the Paperless
-- server, is a parameter; None is its exception. Labels of select options are texts.
use paperless_iq.Prelude.{
  String, Bool, Option, none, some, List, [], ◌∷◌, map, if◌then◌else◌, keep, nat_eq, string_eq,
  ◌==◌, contains,
}
use paperless_iq.Prelude.Dict.{Dict, get, put}
use paperless_iq.Approval.Py.{Py, Value, null, text}
use paperless_iq.Approval.Entities.{
  EntityType, tags, correspondents, document_types, storage_paths, Policy, allow_new, existing_only,
  PolicyConfig, Item,
}
use paperless_iq.Approval.CustomFields.{is_empty}
use paperless_iq.Approval.Rows.{MetadataSuggestion}

-- The lists that the caller has fetched.
pub record Prefetched : Type 0 where
  pub all_tags : Option (List String)
  pub all_correspondents : Option (List String)
  pub all_document_types : Option (List String)
  pub all_storage_paths : Option (List String)
  pub custom_field_defs : List Item

abbrev pub then_with {ℓ κ} : {A : Type ℓ} {B : Type κ} → Option A → (A → Option B) → Option B
then_with none f = none
then_with (some a) f = f a

-- `{cf["name"]: cf for cf in custom_field_defs}`
unfoldable pub field_lookup : List Item → Dict String Item → Dict String Item
unfolding put
field_lookup [] d = d
field_lookup (cf ∷ defs) d = field_lookup defs (put d cf.name cf)

abbrev pub canonical : Option String → Value
canonical none = null
canonical (some label) = text label

module _ {F : Type 0} (py : Py F) where
  -- `name.lower() in {e.lower() for e in existing}`
  unfoldable pub is_known : List String → String → Bool
  is_known names name = contains (map py.lower names) (py.lower name)

  -- `label_by_normalized`
  unfoldable pub label_lookup :
      List (Option String × Option String) → Dict String String → Dict String String
  unfolding put
  label_lookup [] d = d
  label_lookup ((oid, none) ∷ options) d = label_lookup options d
  label_lookup ((oid, some label) ∷ options) d =
      label_lookup options (if label == "" then d else put d (py.lower (py.strip label)) label)

  unfoldable pub valid_value : Option Item → Value → Value
  unfolding is_empty label_lookup get
  valid_value none value = value
  valid_value (some cf) value =
      if is_empty py value
      then null
      else if cf.data_type == "select"
      then canonical (get (label_lookup cf.options []) (py.lower (py.strip (py.render value))))
      else value

  unfoldable pub valid_fields : List Item → Dict String Value → Dict String Value
  unfolding valid_value field_lookup get
  valid_fields defs [] = []
  valid_fields defs ((name, value) ∷ fields) =
      (name, valid_value (get (field_lookup defs []) name) value) ∷ valid_fields defs fields

-- `all_... if all_... is not None else await list_entities(...)`
unfoldable pub existing :
    (EntityType → Option (List String)) → Option (List String) → EntityType → Option (List String)
existing list_entities none entity_type = list_entities entity_type
existing list_entities (some names) entity_type = some names

module _ {F : Type 0} (py : Py F) (list_entities : EntityType → Option (List String)) where
  unfoldable pub policed_tags : Policy → Option (List String) → List String → Option (List String)
  unfolding existing is_known
  policed_tags allow_new all names = some names
  policed_tags existing_only all [] = some []
  policed_tags existing_only all (name ∷ names) =
      then_with (existing list_entities all tags)
        λ known. some (keep (is_known py known) (name ∷ names))

  unfoldable pub policed_name :
      Policy → Option (List String) → EntityType → Option String → Option (Option String)
  unfolding existing is_known
  policed_name policy all entity_type none = some none
  policed_name allow_new all entity_type (some name) = some (some name)
  policed_name existing_only all entity_type (some name) =
      if name == ""
      then some (some name)
      else then_with (existing list_entities all entity_type)
          λ known. some (if is_known py known name then some name else none)

  unfoldable pub apply_creation_policy :
      MetadataSuggestion → PolicyConfig → Prefetched → Option MetadataSuggestion
  unfolding policed_tags policed_name valid_fields
  apply_creation_policy s config all =
      then_with (policed_tags config.tag_creation_policy all.all_tags s.tags) λ tags₁.
        then_with
          (policed_name config.correspondent_creation_policy all.all_correspondents correspondents
            s.correspondent)
          λ correspondent₁.
            then_with
              (policed_name config.doctype_creation_policy all.all_document_types document_types
                s.document_type)
              λ document_type₁.
                then_with
                  (policed_name config.storage_path_creation_policy all.all_storage_paths
                    storage_paths s.storage_path)
                  λ storage_path₁. some (record s {
                    tags = tags₁;
                    correspondent = correspondent₁;
                    document_type = document_type₁;
                    storage_path = storage_path₁;
                    custom_fields = valid_fields py all.custom_field_defs s.custom_fields;
                  })
