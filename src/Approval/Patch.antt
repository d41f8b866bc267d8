-- ===== src/Approval/Patch.antt =====
-- The write to Paperless NGX (_patch_paperless).
use paperless_iq.Prelude.{
  ℕ, String, Bool, ◌||◌, not, Option, none, some, List, [], ◌∷◌, ◌++◌, if◌then◌else◌, is_some,
  nat_eq, string_eq, ◌==◌, contains,
}
use paperless_iq.Prelude.Dict.{Dict}
use paperless_iq.Approval.Exec.{Exec, Result, ok, err, patch_refused, http_failure, pure, ◌>>=◌}
use paperless_iq.Approval.Py.{Py, Value}
use paperless_iq.Approval.Entities.{
  EntityType, CreateMissing, may_create, Server, Net, PatchBody, PatchReply, accepted,
  rejected_by_server, no_answer, resolve_or_create_entity_ids, get_document_tag_ids,
}
use paperless_iq.Approval.CustomFields.{resolve_custom_fields}

-- `payload`: the six editable fields, and the content when it is written back.
pub record Payload : Type 0 where
  pub title : Option String
  pub tags : Option (List String)
  pub correspondent : Option String
  pub document_type : Option String
  pub storage_path : Option String
  pub custom_fields : Option (Dict String Value)
  pub content : Option String

-- `if payload.get(f)`: None and the empty text are falsy.
unfoldable pub truthy : Option String → Option String
truthy none = none
truthy (some s) = if s == "" then none else some s

-- `dict.fromkeys(ids)`: the first of each id, in order. `seen` are the ids before.
unfoldable pub dedupe : List ℕ → List ℕ → List ℕ
dedupe seen [] = []
dedupe seen (i ∷ ids) =
    let fresh = dedupe (i ∷ seen) ids in
    let old = dedupe seen ids in if contains seen i then old else i ∷ fresh

abbrev pub first : List ℕ → Option ℕ
first [] = none
first (i ∷ ids) = some i

-- `if cf_list`
abbrev pub nonempty : List (ℕ × Value) → Option (List (ℕ × Value))
nonempty [] = none
nonempty (e ∷ es) = some (e ∷ es)

-- `if not patch`
unfoldable pub is_blank : PatchBody → Bool
is_blank p = not (
    is_some p.title
    || is_some p.tags
    || is_some p.correspondent
    || is_some p.document_type
    || is_some p.storage_path
    || is_some p.custom_fields
    || is_some p.content)

module _ {F S : Type 0} (py : Py F) (api : Server S) where
  abbrev pub merge_existing : ℕ → Bool → List ℕ → Exec (Net S) (Option (List ℕ))
  merge_existing document_id merge_tags tag_ids net = (
    ok (
        some (
          if merge_tags
          then dedupe [] (get_document_tag_ids py api document_id net ++ tag_ids)
          else tag_ids)),
    net,
  )

  -- `tags`: an empty list is written, and clears the document's tags.
  unfoldable pub patch_tags :
      ℕ → Option (List String) → Bool → CreateMissing → ℕ → Exec (Net S) (Option (List ℕ))
  unfolding dedupe
  patch_tags document_id none merge_tags create_missing now = pure none
  patch_tags document_id (some names) merge_tags create_missing now = do
    tag_ids ←
        resolve_or_create_entity_ids py api EntityType.tags names
          (may_create create_missing EntityType.tags) now
    merge_existing document_id merge_tags tag_ids

  -- `correspondent`, `document_type` and `storage_path`: the first id, if there is one.
  unfoldable pub patch_single :
      EntityType → Option String → CreateMissing → ℕ → Exec (Net S) (Option ℕ)
  patch_single entity_type none create_missing now = pure none
  patch_single entity_type (some name) create_missing now = do
    ids ←
        resolve_or_create_entity_ids py api entity_type (name ∷ [])
          (may_create create_missing entity_type) now
    pure (first ids)

  -- `if payload.get("custom_fields")`: None and the empty dict are falsy.
  unfoldable pub patch_fields :
      Option (Dict String Value) → CreateMissing → ℕ → Exec (Net S) (Option (List (ℕ × Value)))
  patch_fields none create_missing now = pure none
  patch_fields (some []) create_missing now = pure none
  patch_fields (some (f ∷ fields)) create_missing now = do
    entries ←
        resolve_custom_fields py api (f ∷ fields)
          (may_create create_missing EntityType.custom_fields) now
    pure (nonempty entries)

  -- The assembly of `patch`, in the order of the code.
  unfoldable pub build_patch : ℕ → Payload → Bool → CreateMissing → ℕ → Exec (Net S) PatchBody
  unfolding truthy patch_tags patch_single patch_fields
  build_patch document_id payload merge_tags create_missing now = do
    tag_ids ← patch_tags document_id payload.tags merge_tags create_missing now
    corr ← patch_single EntityType.correspondents (truthy payload.correspondent) create_missing now
    dt ← patch_single EntityType.document_types (truthy payload.document_type) create_missing now
    sp ← patch_single EntityType.storage_paths (truthy payload.storage_path) create_missing now
    cf_list ← patch_fields payload.custom_fields create_missing now
    pure (record {
      title = truthy payload.title;
      tags = tag_ids;
      correspondent = corr;
      document_type = dt;
      storage_path = sp;
      custom_fields = cf_list;
      content = truthy payload.content;
    })

  abbrev pub answered : Net S → PatchReply × S → Result (Unit {0}) × Net S
  answered net (accepted, s) = (ok tt, record net { server = s })
  answered net (rejected_by_server, s) = (err patch_refused, record net { server = s })
  answered net (no_answer, s) = (err http_failure, record net { server = s })

  unfoldable pub send_patch : ℕ → PatchBody → Exec (Net S) (Unit {0})
  unfolding is_blank
  send_patch document_id patch net =
      if is_blank patch then (ok tt, net) else answered net (api.patch document_id patch net.server)

  -- `configured`: PAPERLESS_URL and PAPERLESS_TOKEN are set.
  unfoldable pub patch_paperless :
      Bool → ℕ → Payload → Bool → CreateMissing → ℕ → Exec (Net S) (Unit {0})
  unfolding build_patch send_patch
  patch_paperless configured document_id payload merge_tags create_missing now net =
      if configured
      then (do
        patch ← build_patch document_id payload merge_tags create_missing now
        send_patch document_id patch)
          net
      else (ok tt, net)
