-- ===== src/Approval/Creation.antt =====
-- The creations of an approval and the policies (backend/approval_queue.py).
use paperless_iq.Prelude.{
  ℕ, String, ◌≡◌, refl, ap, inl, inr, Bool, true, false, Option, none, some, List, [], ◌∷◌,
  if◌then◌else◌, Option-cases, All, nat_eq, string_eq,
}
use mathlib.Core.Path.{subst}
use paperless_iq.Prelude.Dict.{get}
use paperless_iq.Approval.Exec.{Result, ok, err, resume-keeps}
use paperless_iq.Approval.Py.{Py}
use paperless_iq.Approval.Rows.{Status, pending, approved, rejected, SuggestionRow, get_row}
use paperless_iq.Approval.Entities.{
  EntityType, PatchBody, PatchReply, accepted, rejected_by_server, no_answer, entity_eq, Policy,
  allow_new, existing_only, allows_new, PolicyConfig, CreateMissing, per_type, creation_policy_map,
  may_create, Server, Net,
}
use paperless_iq.Approval.Patch.{
  Payload, truthy, patch_tags, patch_single, patch_fields, build_patch, send_patch, answered,
  is_blank, patch_paperless,
}
use paperless_iq.Approval.Policies.{
  Permitted, patch_tags-Permitted, patch_single-Permitted, patch_fields-Permitted,
}
use paperless_iq.Approval.Service.{World, ApproveArgs, apply_edits, payload_of}
use paperless_iq.Approval.Operations.{approve, approve_loaded, after_patch}

module _ {F S : Type 0} (py : Py F) (api : Server S) (c : CreateMissing) where
  abbrev Fine : Net S → Type 0
  Fine net = Permitted c net.posts

  build_patch-Permitted :
      (doc : ℕ) (payload : Payload) (merge : Bool) (now : ℕ) (net : Net S)
      → Fine net
      → Fine (build_patch py api doc payload merge c now net).1
  unfolding build_patch
  build_patch-Permitted doc payload merge now net p =
      resume-keeps Fine _ (patch_tags py api doc payload.tags merge c now net)
        (patch_tags-Permitted py api c doc payload.tags merge now net p)
        λ a n q.
          resume-keeps Fine _
            (patch_single py api EntityType.correspondents (truthy payload.correspondent) c now n)
            (patch_single-Permitted py api c EntityType.correspondents
              (truthy payload.correspondent) now n q)
            λ a₂ n₂ q₂.
              resume-keeps Fine _
                (patch_single py api EntityType.document_types (truthy payload.document_type) c now
                  n₂)
                (patch_single-Permitted py api c EntityType.document_types
                  (truthy payload.document_type) now n₂ q₂)
                λ a₃ n₃ q₃.
                  resume-keeps Fine _
                    (patch_single py api EntityType.storage_paths (truthy payload.storage_path) c
                      now n₃)
                    (patch_single-Permitted py api c EntityType.storage_paths
                      (truthy payload.storage_path) now n₃ q₃)
                    λ a₄ n₄ q₄.
                      resume-keeps Fine _ (patch_fields py api payload.custom_fields c now n₄)
                        (patch_fields-Permitted py api c payload.custom_fields now n₄ q₄)
                        (λ a₅ n₅ q₅. q₅)

  send_patch-Permitted :
      (doc : ℕ) (patch : PatchBody) (net : Net S)
      → Fine net
      → Fine (send_patch py api doc patch net).1
  unfolding send_patch
  send_patch-Permitted doc patch net p = go (is_blank patch) (api.patch doc patch net.server)
    where
      go :
          (b : Bool) (r : PatchReply × S)
          → Fine (if b then (ok tt, net) else answered py api net r).1
      go true r = p
      go false (accepted, s) = p
      go false (rejected_by_server, s) = p
      go false (no_answer, s) = p

  patch_paperless-Permitted :
      (configured : Bool) (doc : ℕ) (payload : Payload) (merge : Bool) (now : ℕ) (net : Net S)
      → Fine net
      → Fine (patch_paperless py api configured doc payload merge c now net).1
  unfolding patch_paperless
  patch_paperless-Permitted false doc payload merge now net p = p
  patch_paperless-Permitted true doc payload merge now net p =
      resume-keeps Fine _ (build_patch py api doc payload merge c now net)
        (build_patch-Permitted doc payload merge now net p)
        (λ a n q. send_patch-Permitted doc a n q)

module _ {F S : Type 0} (py : Py F) (api : Server S) (configured : Bool) (sid : ℕ)
    (args : ApproveArgs) (w : World S) where
  approve_loaded-Permitted :
      (row : SuggestionRow) (status : Status)
      → Permitted args.create_missing w.net.posts
      → Permitted args.create_missing
          (approve_loaded py api configured row status args w).1.net.posts
  unfolding approve_loaded
  approve_loaded-Permitted row approved p = p
  approve_loaded-Permitted row rejected p = p
  approve_loaded-Permitted row pending p =
      after
        (patch_paperless py api configured edited.document_id (payload_of edited args)
          args.merge_tags args.create_missing args.now w.net)
        (patch_paperless-Permitted py api args.create_missing configured edited.document_id
          (payload_of edited args) args.merge_tags args.now w.net p)
    where
      edited : SuggestionRow
      edited = apply_edits args.edits row

      after :
          (r : Result (Unit {0}) × Net S)
          → Permitted args.create_missing r.1.posts
          → Permitted args.create_missing
              (after_patch py api configured row edited args w.db r).1.net.posts
      after (ok u, net) q = q
      after (err f, net) q = q

  approve-Permitted :
      Permitted args.create_missing w.net.posts
      → Permitted args.create_missing (approve py api configured sid args w).1.net.posts
  unfolding approve
  approve-Permitted p = elim (Option-cases (get_row w.db.suggestions sid)) [
    | inl e ↦ rw (e, approve) p
    | inr (row, e) ↦ rw (e, approve) (approve_loaded-Permitted row row.status p)
  ]

-- The policy that governs an endpoint. Custom fields have none.
abbrev pub policy_for : PolicyConfig → EntityType → Option Policy
policy_for config EntityType.tags = some config.tag_creation_policy
policy_for config EntityType.correspondents = some config.correspondent_creation_policy
policy_for config EntityType.document_types = some config.doctype_creation_policy
policy_for config EntityType.storage_paths = some config.storage_path_creation_policy
policy_for config EntityType.custom_fields = none

allows_new_lem : (p : Policy) → allows_new p ≡ true → p ≡ allow_new
allows_new_lem allow_new h = refl
allows_new_lem existing_only h = cc

-- The map gives each endpoint its own policy's permission.
pub may_create-creation_policy_map :
    (config : PolicyConfig) (t : EntityType)
    → may_create (per_type (creation_policy_map config)) t ≡ true
    → policy_for config t ≡ some allow_new
unfolding may_create creation_policy_map get
may_create-creation_policy_map config EntityType.tags h =
    ap some (allows_new_lem config.tag_creation_policy h)
may_create-creation_policy_map config EntityType.correspondents h =
    ap some (allows_new_lem config.correspondent_creation_policy h)
may_create-creation_policy_map config EntityType.document_types h =
    ap some (allows_new_lem config.doctype_creation_policy h)
may_create-creation_policy_map config EntityType.storage_paths h =
    ap some (allows_new_lem config.storage_path_creation_policy h)
may_create-creation_policy_map config EntityType.custom_fields h = cc

posts_allowed :
    (config : PolicyConfig) (posts : List (EntityType × String))
    → Permitted (per_type (creation_policy_map config)) posts
    → All (λ p. policy_for config p.0 ≡ some allow_new) posts
posts_allowed config [] a = tt
posts_allowed config ((t, name) ∷ posts) a =
    (may_create-creation_policy_map config t a.0, posts_allowed config posts a.1)

-- An approval under the map of the configured policies that starts with no POST sent, whether it
-- returns or raises, sends POSTs only to endpoints whose own policy is `allow_new`; a custom field
-- is never created.
pub approve_creates :
    {F S : Type 0} (py : Py F) (api : Server S) (configured : Bool) (sid : ℕ) (args : ApproveArgs)
    (w : World S) (config : PolicyConfig)
    → args.create_missing ≡ per_type (creation_policy_map config)
    → w.net.posts ≡ []
    → All
        (λ p. policy_for config p.0 ≡ some allow_new)
        (approve py api configured sid args w).1.net.posts
approve_creates py api configured sid args w config e none_sent =
    posts_allowed config (approve py api configured sid args w).1.net.posts (
      subst (λ c. Permitted c (approve py api configured sid args w).1.net.posts) e
        (approve-Permitted py api configured sid args w (rw none_sent tt)))
