-- ===== src/Approval/Tags.antt =====
-- The tag ids that an approval writes.
use paperless_iq.Prelude.{
  ℕ, String, ◌≡◌, refl, ap, ◌∙◌, true, false, ◌||◌, none, some, List, [], ◌∷◌, ◌++◌, arith,
  if◌then◌else◌, eqb_iff, or_else, nat_eq, string_eq, contains, occurrences, one_if,
}
use paperless_iq.Prelude.Dict.{get, put}
use paperless_iq.Approval.Exec.{Result, ok, resume}
use paperless_iq.Approval.Py.{Py}
use paperless_iq.Approval.Entities.{
  EntityType, entity_eq, CreateMissing, may_create, Reply, refused, Server, Net, is_fresh,
  from_cache, fetched, name_to_id, fetch_names, resolve_all, resolve_or_create_entity_ids,
  get_document_tag_ids,
}
use paperless_iq.Approval.Patch.{dedupe, patch_tags, merge_existing}

pub occurrences-dedupe :
    (x : ℕ) (seen ids : List ℕ)
    → occurrences x (dedupe seen ids) ≡ (if contains seen x then 0 else one_if (contains ids x))
unfolding dedupe
occurrences-dedupe x seen [] = ground arith
occurrences-dedupe x seen (i ∷ ids) = ground (
  arith,
  occurrences-dedupe x seen ids,
  occurrences-dedupe x (i ∷ seen) ids,
  eqb_iff x i,
  eqb_iff i x,
)

contains-append :
    (xs ys : List ℕ) (x : ℕ) → contains (xs ++ ys) x ≡ (contains xs x || contains ys x)
contains-append [] ys x = refl
contains-append (y ∷ xs) ys x = ground (arith, contains-append xs ys x)

module _ {F S : Type 0} (py : Py F) (api : Server S) where
  -- With `merge_tags`, when the server answers with the tags of the document, each of them and each
  -- resolved id is in the tag list of the approval, exactly once, and no other id.
  pub patch_tags_merged :
      (doc : ℕ) (names : List String) (create_missing : CreateMissing) (now : ℕ) (net net' : Net S)
      (ids existing : List ℕ) (x : ℕ)
      → api.document_tags doc net'.server ≡ some existing
      → resolve_or_create_entity_ids py api EntityType.tags names
          (may_create create_missing EntityType.tags)
          now
          net
        ≡ (ok ids, net')
      → (merged : List ℕ) × ((patch_tags py api doc (some names) true create_missing now net).0
          ≡ ok (some merged))
        × (occurrences x merged ≡ one_if (contains existing x || contains ids x))
  unfolding patch_tags get_document_tag_ids
  patch_tags_merged doc names create_missing now net net' ids existing x g h = (
    dedupe [] (get_document_tag_ids py api doc net' ++ ids),
    ap (λ (r : Result (List ℕ) × Net S). (resume (merge_existing py api doc true) r).0) h,
    occurrences-dedupe x [] (get_document_tag_ids py api doc net' ++ ids)
        ∙ (ap one_if (contains-append (get_document_tag_ids py api doc net') ids x)
            ∙ ap (λ o. one_if (contains (or_else o []) x || contains ids x)) g),
  )

  no_names :
      (t : EntityType) (names : List String) (net : Net S)
      → resolve_all py api t [] false names net ≡ ([], net)
  unfolding resolve_all get
  no_names t [] net = refl
  no_names t (name ∷ names) net = rw (no_names t names net)

  name_to_id_refused :
      (t : EntityType) (now : ℕ) (net : Net S) (rest : List Reply)
      → api.listing t net.server ≡ refused ∷ rest
      → is_fresh now (get net.entity_cache t) ≡ none
      → name_to_id py api t now net
        ≡ (ok [], record net { entity_cache = put net.entity_cache t (now, []) })
  unfolding name_to_id fetched
  name_to_id_refused t now net rest h e =
      ap (λ o. from_cache py api t now o net) e
      ∙ ap (λ l. fetched py api t now net (fetch_names py api l [])) h

  -- The tag list when the server refuses the listing of the tags and no fresh listing is cached, and
  -- nothing is created or merged.
  pub patch_tags_refused :
      (doc : ℕ) (names : List String) (create_missing : CreateMissing) (now : ℕ) (net : Net S)
      (rest : List Reply)
      → may_create create_missing EntityType.tags ≡ false
      → api.listing EntityType.tags net.server ≡ refused ∷ rest
      → is_fresh now (get net.entity_cache EntityType.tags) ≡ none
      → patch_tags py api doc (some names) false create_missing now net ≡ (
        ok (some []),
        record net { entity_cache = put net.entity_cache EntityType.tags (now, []) },
      )
  unfolding patch_tags resolve_or_create_entity_ids
  patch_tags_refused doc names create_missing now net rest m h e =
      rw (m, name_to_id_refused EntityType.tags now net rest h e) (rw no_names refl)
