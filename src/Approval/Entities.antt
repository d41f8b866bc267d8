-- ===== src/Approval/Entities.antt =====
-- Creation policies, and the resolution of entity names to Paperless ids with its TTL cache
-- (creation_policy_map, _may_create, _get_document_tag_ids, _resolve_or_create_entity_ids).
-- The Paperless NGX server is a parameter: it answers by its own state.
use paperless_iq.Prelude.{
  ℕ, zero, suc, ◌-◌, String, ◌≡◌, ap, ◌↔◌, Bool, true, false, Option, none, some, List, [], ◌∷◌,
  arith, ltb, eqb, if◌then◌else◌, eqb_iff, or_else, Eq, nat_eq, string_eq,
}
use paperless_iq.Prelude.Dict.{Dict, get, put, remove}
use paperless_iq.Approval.Exec.{Exec, Result, ok, err, http_failure, ◌>>=◌}
use paperless_iq.Approval.Py.{Py, Value}

-- The Paperless endpoints.
pub data EntityType : Type 0 where
  tags correspondents document_types storage_paths custom_fields : EntityType

abbrev rank : EntityType → ℕ
rank tags = 0
rank correspondents = 1
rank document_types = 2
rank storage_paths = 3
rank custom_fields = 4

rank-injective : (a b : EntityType) → rank a ≡ rank b → a ≡ b
rank-injective a b h = ground arith

pub rank-beq_iff : (a b : EntityType) → (eqb (rank a) (rank b) ≡ true) ↔ (a ≡ b)
rank-beq_iff a b = (
  λ h. rank-injective a b ((eqb_iff (rank a) (rank b)).0 h),
  λ e. (eqb_iff (rank a) (rank b)).1 (ap rank e),
)

instance abbrev pub entity_eq : Eq EntityType
entity_eq = record { same = λ a b. eqb (rank a) (rank b); same_iff = rank-beq_iff }

-- `PaperlessIQConfig`'s four creation policies.
pub data Policy : Type 0 where
  allow_new existing_only : Policy

pub record PolicyConfig : Type 0 where
  pub tag_creation_policy : Policy
  pub correspondent_creation_policy : Policy
  pub doctype_creation_policy : Policy
  pub storage_path_creation_policy : Policy

abbrev pub allows_new : Policy → Bool
allows_new allow_new = true
allows_new existing_only = false

-- `bool | Mapping[str, bool]`
pub data CreateMissing : Type 0 where
  for_all : Bool → CreateMissing
  per_type : Dict EntityType Bool → CreateMissing

unfoldable pub creation_policy_map : PolicyConfig → Dict EntityType Bool
creation_policy_map config =
    (tags, allows_new config.tag_creation_policy)
    ∷ (correspondents, allows_new config.correspondent_creation_policy)
    ∷ (document_types, allows_new config.doctype_creation_policy)
    ∷ (storage_paths, allows_new config.storage_path_creation_policy)
    ∷ (custom_fields, false)
    ∷ []

unfoldable pub may_create : CreateMissing → EntityType → Bool
may_create (for_all b) entity_type = b
may_create (per_type m) entity_type = or_else (get m entity_type) false

-- One item of a listing. A missing name is the empty text; `options` are the `select_options` of a
-- custom field, an id and a label, either of which may be missing.
pub record Item : Type 0 where
  pub id : ℕ
  pub name : String
  pub data_type : String
  pub options : List (Option String × Option String)

-- One answer on the chain of `next` links: a page, a status other than 200, or no answer.
pub data Reply : Type 0 where
  page : List Item → Reply
  refused unreachable : Reply

-- The answer to a PATCH.
pub data PatchReply : Type 0 where
  accepted rejected_by_server no_answer : PatchReply

-- The body of a PATCH: a field that is None is not in it.
pub record PatchBody : Type 0 where
  pub title : Option String
  pub tags : Option (List ℕ)
  pub correspondent : Option ℕ
  pub document_type : Option ℕ
  pub storage_path : Option ℕ
  pub custom_fields : Option (List (ℕ × Value))
  pub content : Option String

-- The server: `listing` is the chain of pages of an endpoint, `create` a POST (None when it fails,
-- or when its answer has no id), `document_tags` a GET (None when it fails).
pub record Server (S : Type 0) : Type 0 where
  pub listing : EntityType → S → List Reply
  pub create : EntityType → String → S → Option ℕ × S
  pub document_tags : ℕ → S → Option (List ℕ)
  pub patch : ℕ → PatchBody → S → PatchReply × S

-- The server's state, the module-level `_entity_cache` (the custom field definitions, whose key is
-- another, in a slot of their own), and the POSTs sent so far, latest first.
pub record Net (S : Type 0) : Type 0 where
  pub server : S
  pub entity_cache : Dict EntityType (ℕ × Dict String ℕ)
  pub fields_cache : Option (ℕ × Dict String Item)
  pub posts : List (EntityType × String)

-- 60 seconds; the clock counts milliseconds.
abbrev pub cache_ttl : ℕ
cache_ttl = 60000

abbrev pub is_fresh {ℓ} : {A : Type ℓ} → ℕ → Option (ℕ × A) → Option A
is_fresh now none = none
is_fresh now (some (at, a)) = if ltb (now - at) cache_ttl then some a else none

module _ {F S : Type 0} (py : Py F) (api : Server S) where
  -- `for item in results: name_to_id[item.name.lower()] = item.id`
  unfoldable pub add_items : List Item → Dict String ℕ → Dict String ℕ
  add_items [] m = m
  add_items (item ∷ items) m = add_items items (put m (py.lower item.name) item.id)

  -- `while url`: a status other than 200 ends the loop, a transport error leaves it.
  unfoldable pub fetch_names : List Reply → Dict String ℕ → Option (Dict String ℕ)
  fetch_names [] m = some m
  fetch_names (page items ∷ rest) m = fetch_names rest (add_items items m)
  fetch_names (refused ∷ rest) m = some m
  fetch_names (unreachable ∷ rest) m = none

  unfoldable pub fetched :
      EntityType → ℕ → Net S → Option (Dict String ℕ) → Result (Dict String ℕ) × Net S
  fetched entity_type now net none = (err http_failure, net)
  fetched entity_type now net (some m) =
      (ok m, record net { entity_cache = put net.entity_cache entity_type (now, m) })

  unfoldable pub from_cache : EntityType → ℕ → Option (Dict String ℕ) → Exec (Net S) (Dict String ℕ)
  unfolding fetched fetch_names
  from_cache entity_type now (some m) net = (ok m, net)
  from_cache entity_type now none net =
      fetched entity_type now net (fetch_names (api.listing entity_type net.server) [])

  -- The map from lower-case names to ids, from the cache or from the server.
  unfoldable pub name_to_id : EntityType → ℕ → Exec (Net S) (Dict String ℕ)
  unfolding from_cache
  name_to_id entity_type now net =
      from_cache entity_type now (is_fresh now (get net.entity_cache entity_type)) net

  -- A POST. An id of 0 is falsy, and counts as no id.
  unfoldable pub created : EntityType → String → Net S → Option ℕ × S → Option ℕ × Net S
  created entity_type name net (none, s) =
      (none, record net { server = s; posts = (entity_type, name) ∷ net.posts })
  created entity_type name net (some zero, s) =
      (none, record net { server = s; posts = (entity_type, name) ∷ net.posts })
  created entity_type name net (some (suc i), s) = (
    some (suc i),
    record net {
      server = s;
      entity_cache = remove net.entity_cache entity_type;
      posts = (entity_type, name) ∷ net.posts;
    },
  )

  -- One name: its id, if there is one, and what it did to the server.
  unfoldable pub resolve_one : EntityType → Dict String ℕ → Bool → String → Net S → Option ℕ × Net S
  unfolding created
  resolve_one entity_type m create_missing name net = elim (get m (py.lower name)) [
    | some eid ↦ (some eid, net)
    | none ↦
        if create_missing
        then created entity_type name net (api.create entity_type name net.server)
        else (none, net)
  ]

  abbrev pub add_id : Option ℕ → List ℕ → List ℕ
  add_id none ids = ids
  add_id (some i) ids = i ∷ ids

  -- The loop over the names, its ids in order.
  unfoldable pub resolve_all :
      EntityType → Dict String ℕ → Bool → List String → Net S → List ℕ × Net S
  unfolding resolve_one
  resolve_all entity_type m create_missing [] net = ([], net)
  resolve_all entity_type m create_missing (name ∷ names) net =
      let (eid, net') = resolve_one entity_type m create_missing name net in
      let (ids, net'') = resolve_all entity_type m create_missing names net' in
      (add_id eid ids, net'')

  unfoldable pub resolve_or_create_entity_ids :
      EntityType → List String → Bool → ℕ → Exec (Net S) (List ℕ)
  unfolding name_to_id resolve_all
  resolve_or_create_entity_ids entity_type names create_missing now = do
    m ← name_to_id entity_type now
    λ net. let (ids, net') = resolve_all entity_type m create_missing names net in (ok ids, net')

  -- The document's current tags, none if they cannot be fetched.
  unfoldable pub get_document_tag_ids : ℕ → Net S → List ℕ
  get_document_tag_ids document_id net = or_else (api.document_tags document_id net.server) []
