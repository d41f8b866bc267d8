-- ===== src/Merging/Service.antt =====
-- merge_entities (backend/grooming.py), over the listing of Merging.Documents. Where a request raises, nothing is committed to the database, but the server keeps what it
-- has done. The time of the audit rows is left out.
use paperless_iq.Prelude.{
  ℕ, ◌+◌, String, Option, none, some, List, [], ◌∷◌, ◌++◌, map, or_else, length, nat_eq, string_eq,
}
use paperless_iq.Prelude.Dict.{Dict, get, remove}
use paperless_iq.Merging.Documents.{
  MergeType, tag, correspondent, document_type, Paperless, entity_docs,
}

pub record MergeAudit : Type 0 where
  pub document_id : ℕ
  pub document_title : Option String
  pub field_name : MergeType
  pub previous_value : String
  pub new_value : String
  pub actor : String

-- The name snapshots of the entities of this type, and the audit rows.
pub record GroomingDb : Type 0 where
  pub names : Dict ℕ String
  pub audit : List MergeAudit

pub record MergeCount : Type 0 where
  pub documents_updated : ℕ
  pub entities_deleted : ℕ

module _ {S : Type 0} (api : Paperless S) (show_id : ℕ → String) (entity_type : MergeType) where
  -- `row.name_snapshot if row else str(id)`
  unfoldable pub snapshot : GroomingDb → ℕ → String
  unfolding get
  snapshot db id = or_else (get db.names id) (show_id id)

  unfoldable pub reassign : MergeType → List ℕ → ℕ → ℕ → S → Option S
  reassign tag docs keep_id remove_id s = api.modify_tags docs keep_id remove_id s
  reassign correspondent docs keep_id remove_id s = api.set_entity correspondent docs keep_id s
  reassign document_type docs keep_id remove_id s = api.set_entity document_type docs keep_id s

  unfoldable pub reassigned : List ℕ → ℕ → ℕ → S → Option S
  unfolding reassign
  reassigned [] keep_id remove_id s = some s
  reassigned (d ∷ docs) keep_id remove_id s = reassign entity_type (d ∷ docs) keep_id remove_id s

  unfoldable pub audit_rows : String → String → String → List (ℕ × Option String) → List MergeAudit
  audit_rows actor remove_name keep_name [] = []
  audit_rows actor remove_name keep_name ((doc, title) ∷ affected) =
      record {
        document_id = doc;
        document_title = title;
        field_name = entity_type;
        previous_value = remove_name;
        new_value = keep_name;
        actor = actor;
      }
      ∷ audit_rows actor remove_name keep_name affected

  -- One removed entity in the session, from the answer of the reassignment on.
  unfoldable pub removed :
      String
      → String
      → ℕ
      → List (ℕ × Option String)
      → S
      → GroomingDb
      → MergeCount
      → S × GroomingDb × MergeCount
  unfolding remove audit_rows snapshot
  removed actor keep_name remove_id affected s db count = (
    (api.delete_entity entity_type remove_id s).1,
    record {
      names = remove db.names remove_id;
      audit = db.audit ++ audit_rows actor (snapshot db remove_id) keep_name affected;
    },
    record {
      documents_updated = count.documents_updated + length affected;
      entities_deleted = count.entities_deleted + 1;
    },
  )

  abbrev pub after_reassign :
      Option S
      → S
      → (S → S × Option (GroomingDb × MergeCount))
      → S × Option (GroomingDb × MergeCount)
  after_reassign none s f = (s, none)
  after_reassign (some s₁) s f = f s₁

  -- The loop over `remove_ids`; None is an exception of the reassignment.
  unfoldable pub merge_each :
      String
      → String
      → ℕ
      → List ℕ
      → S
      → GroomingDb
      → MergeCount
      → S × Option (GroomingDb × MergeCount)
  unfolding reassigned removed entity_docs
  merge_each actor keep_name keep_id [] s db count = (s, some (db, count))
  merge_each actor keep_name keep_id (remove_id ∷ remove_ids) s db count =
      after_reassign
        (reassigned (map (λ d. d.0) (entity_docs api entity_type remove_id s)) keep_id remove_id s)
        s
        λ s₁.
          let r =
            removed actor keep_name remove_id (entity_docs api entity_type remove_id s) s₁ db
              count in
          merge_each actor keep_name keep_id remove_ids r.0 r.1 r.2

  abbrev pub kept_db : Option (GroomingDb × MergeCount) → GroomingDb → GroomingDb
  kept_db none db = db
  kept_db (some (db₁, count)) db = db₁

  abbrev pub answer_count : Option (GroomingDb × MergeCount) → Option MergeCount
  answer_count none = none
  answer_count (some (db₁, count)) = some count

  -- The server, the committed database, and the counts or the exception.
  unfoldable pub merge_entities :
      ℕ → List ℕ → String → S → GroomingDb → S × GroomingDb × Option MergeCount
  unfolding merge_each snapshot
  merge_entities keep_id remove_ids actor s db =
      let r =
        merge_each actor (snapshot db keep_id) keep_id remove_ids s db
          (record { documents_updated = 0; entities_deleted = 0 }) in
      (r.0, kept_db r.1 db, answer_count r.1)
