-- ===== src/Approval/Policies.antt =====
-- Which entities an approval may create in Paperless.
use paperless_iq.Prelude.{
  ℕ, zero, suc, String, ◌≡◌, refl, Bool, true, false, Option, none, some, List, [], ◌∷◌,
  if◌then◌else◌, All, nat_eq, string_eq,
}
use paperless_iq.Prelude.Dict.{Dict, get}
use paperless_iq.Approval.Exec.{Result, ok, resume-keeps}
use paperless_iq.Approval.Py.{Py, Value}
use paperless_iq.Approval.Entities.{
  EntityType, Item, entity_eq, CreateMissing, may_create, Server, Net, is_fresh, from_cache,
  fetched, name_to_id, fetch_names, created, resolve_one, resolve_all, resolve_or_create_entity_ids,
}
use paperless_iq.Approval.CustomFields.{
  name_to_info, definitions_from, definitions_fetched, fetch_definitions, defined, resolve_field,
  resolve_fields, resolve_custom_fields, succeed, one_entry, field_value,
}
use paperless_iq.Approval.Patch.{patch_tags, patch_single, patch_fields}

-- Every POST so far went to an endpoint that the permission covers.
abbrev pub Permitted : CreateMissing → List (EntityType × String) → Type 0
Permitted c posts = All (λ p. may_create c p.0 ≡ true) posts

module _ {F S : Type 0} (py : Py F) (api : Server S) (c : CreateMissing) where
  fetched-Permitted :
      (t : EntityType) (now : ℕ) (net : Net S) (m : Option (Dict String ℕ))
      → Permitted c net.posts
      → Permitted c (fetched py api t now net m).1.posts
  unfolding fetched
  fetched-Permitted t now net none p = p
  fetched-Permitted t now net (some m) p = p

  from_cache-Permitted :
      (t : EntityType) (now : ℕ) (o : Option (Dict String ℕ)) (net : Net S)
      → Permitted c net.posts
      → Permitted c (from_cache py api t now o net).1.posts
  unfolding from_cache
  from_cache-Permitted t now (some m) net p = p
  from_cache-Permitted t now none net p =
      fetched-Permitted t now net (fetch_names py api (api.listing t net.server) []) p

  created-Permitted :
      (t : EntityType) (name : String) (net : Net S) (r : Option ℕ × S)
      → may_create c t ≡ true
      → Permitted c net.posts
      → Permitted c (created py api t name net r).1.posts
  unfolding created
  created-Permitted t name net (none, s) a p = (a, p)
  created-Permitted t name net (some zero, s) a p = (a, p)
  created-Permitted t name net (some (suc i), s) a p = (a, p)

  resolve_one-Permitted :
      (t : EntityType) (m : Dict String ℕ) (b : Bool) (name : String) (net : Net S)
      → (b ≡ true → may_create c t ≡ true)
      → Permitted c net.posts
      → Permitted c (resolve_one py api t m b name net).1.posts
  unfolding resolve_one
  resolve_one-Permitted t m b name net a p = go (get m (py.lower name)) b a
    where
      go :
          (o : Option ℕ) (b : Bool)
          → (b ≡ true → may_create c t ≡ true)
          → Permitted c
              (elim o as (λ _. Option ℕ × Net S) [
                | some eid ↦ (some eid, net)
                | none ↦
                    if b
                    then created py api t name net (api.create t name net.server)
                    else (none, net)
              ]).1.posts
      go (some eid) b a = p
      go none true a = created-Permitted t name net (api.create t name net.server) (a refl) p
      go none false a = p

  resolve_all-Permitted :
      (t : EntityType) (m : Dict String ℕ) (b : Bool) (names : List String) (net : Net S)
      → (b ≡ true → may_create c t ≡ true)
      → Permitted c net.posts
      → Permitted c (resolve_all py api t m b names net).1.posts
  unfolding resolve_all
  resolve_all-Permitted t m b [] net a p = p
  resolve_all-Permitted t m b (name ∷ names) net a p =
      resolve_all-Permitted t m b names (resolve_one py api t m b name net).1 a
        (resolve_one-Permitted t m b name net a p)

  resolve-Permitted :
      (t : EntityType) (names : List String) (now : ℕ) (net : Net S)
      → Permitted c net.posts
      → Permitted c (resolve_or_create_entity_ids py api t names (may_create c t) now net).1.posts
  unfolding resolve_or_create_entity_ids name_to_id
  resolve-Permitted t names now net p =
      resume-keeps (λ (n : Net S). Permitted c n.posts) _ (name_to_id py api t now net)
        (from_cache-Permitted t now (is_fresh now (get net.entity_cache t)) net p)
        λ m n q. resolve_all-Permitted t m (may_create c t) names n (λ e. e) q

  definitions-Permitted :
      (now : ℕ) (o : Option (Dict String Item)) (net : Net S)
      → Permitted c net.posts
      → Permitted c (definitions_from py api now o net).1.posts
  unfolding definitions_from
  definitions-Permitted now (some m) net p = p
  definitions-Permitted now none net p =
      go (fetch_definitions py api (api.listing EntityType.custom_fields net.server) [])
    where
      go :
          (o : Option (Dict String Item))
          → Permitted c (definitions_fetched py api now net o).1.posts
      go none = p
      go (some m) = p

  resolve_field-Permitted :
      (infos : Dict String Item) (name : String) (value : Value) (net : Net S)
      → Permitted c net.posts
      → Permitted c
          (resolve_field py api infos
            (may_create c EntityType.custom_fields)
            name
            value
            net).1.posts
  unfolding resolve_field
  resolve_field-Permitted infos name value net p =
      go (get infos (py.lower name)) (may_create c EntityType.custom_fields) refl
    where
      posted :
          (r : Option ℕ × S)
          → may_create c EntityType.custom_fields ≡ true
          → Permitted c (succeed py api (defined py api name value net r)).1.posts
      posted (none, s) a = (a, p)
      posted (some zero, s) a = (a, p)
      posted (some (suc i), s) a = (a, p)

      go :
          (o : Option Item) (b : Bool)
          → may_create c EntityType.custom_fields ≡ b
          → Permitted c
              (elim o as (λ _. Result (List (ℕ × Value)) × Net S) [
                | some info ↦ (one_entry py api info.id (field_value py info value), net)
                | none ↦
                    if b
                    then succeed py api (
                        defined py api name value net
                          (api.create EntityType.custom_fields name net.server))
                    else (ok [], net)
              ]).1.posts
      go (some info) b e = p
      go none true e = posted (api.create EntityType.custom_fields name net.server) e
      go none false e = p

  resolve_fields-Permitted :
      (infos : Dict String Item) (fields : Dict String Value) (net : Net S)
      → Permitted c net.posts
      → Permitted c
          (resolve_fields py api infos (may_create c EntityType.custom_fields) fields net).1.posts
  unfolding resolve_fields
  resolve_fields-Permitted infos [] net p = p
  resolve_fields-Permitted infos ((name, value) ∷ fields) net p =
      resume-keeps (λ (n : Net S). Permitted c n.posts) _
        (resolve_field py api infos (may_create c EntityType.custom_fields) name value net)
        (resolve_field-Permitted infos name value net p)
        λ e n q.
          resume-keeps (λ (n : Net S). Permitted c n.posts) _
            (resolve_fields py api infos (may_create c EntityType.custom_fields) fields n)
            (resolve_fields-Permitted infos fields n q) (λ l n' r. r)

  pub patch_tags-Permitted :
      (doc : ℕ) (names : Option (List String)) (merge : Bool) (now : ℕ) (net : Net S)
      → Permitted c net.posts
      → Permitted c (patch_tags py api doc names merge c now net).1.posts
  unfolding patch_tags
  patch_tags-Permitted doc none merge now net p = p
  patch_tags-Permitted doc (some names) merge now net p =
      resume-keeps (λ (n : Net S). Permitted c n.posts) _
        (resolve_or_create_entity_ids py api EntityType.tags names (may_create c EntityType.tags)
          now net)
        (resolve-Permitted EntityType.tags names now net p) (λ a n q. q)

  pub patch_single-Permitted :
      (t : EntityType) (name : Option String) (now : ℕ) (net : Net S)
      → Permitted c net.posts
      → Permitted c (patch_single py api t name c now net).1.posts
  unfolding patch_single
  patch_single-Permitted t none now net p = p
  patch_single-Permitted t (some name) now net p =
      resume-keeps (λ (n : Net S). Permitted c n.posts) _
        (resolve_or_create_entity_ids py api t (name ∷ []) (may_create c t) now net)
        (resolve-Permitted t (name ∷ []) now net p) (λ a n q. q)

  pub patch_fields-Permitted :
      (fields : Option (Dict String Value)) (now : ℕ) (net : Net S)
      → Permitted c net.posts
      → Permitted c (patch_fields py api fields c now net).1.posts
  unfolding patch_fields resolve_custom_fields name_to_info
  patch_fields-Permitted none now net p = p
  patch_fields-Permitted (some []) now net p = p
  patch_fields-Permitted (some (f ∷ fields)) now net p =
      resume-keeps (λ (n : Net S). Permitted c n.posts) _
        (resolve_custom_fields py api (f ∷ fields) (may_create c EntityType.custom_fields) now net)
        (resume-keeps (λ (n : Net S). Permitted c n.posts) _ (name_to_info py api now net)
          (definitions-Permitted now (is_fresh now net.fields_cache) net p)
          (λ infos n q. resolve_fields-Permitted infos (f ∷ fields) n q))
        (λ a n q. q)
