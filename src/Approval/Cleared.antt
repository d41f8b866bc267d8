-- ===== src/Approval/Cleared.antt =====
-- What _patch_paperless (backend/approval_queue.py) sends when the listing of the tags is refused.
use paperless_iq.Prelude.{String, Option, none, some, List, [], nat_eq, string_eq}
use paperless_iq.Approval.Py.{Py}
use paperless_iq.Approval.Entities.{entity_eq, PatchBody}
use paperless_iq.Approval.Patch.{Payload, truthy}

-- A payload of tags, with a title or a content.
abbrev pub tags_payload : List String → Option String → Option String → Payload
tags_payload names title content = record {
  title = title;
  tags = some names;
  correspondent = none;
  document_type = none;
  storage_path = none;
  custom_fields = none;
  content = content;
}

-- The body with an empty tag list.
abbrev pub cleared_body : Option String → Option String → PatchBody
cleared_body title content = record {
  title = truthy title;
  tags = some [];
  correspondent = none;
  document_type = none;
  storage_path = none;
  custom_fields = none;
  content = truthy content;
}
