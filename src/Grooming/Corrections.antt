-- ===== src/Grooming/Corrections.antt =====
-- The second half of _enqueue_candidates (backend/grooming.py): the actions of one document checked
-- against its current metadata, and the corrected values.
use paperless_iq.Prelude.{
  ℕ, String, Bool, false, Option, none, some, List, [], ◌∷◌, ◌++◌, eqb, if◌then◌else◌, is_some,
  nat_eq, string_eq, ◌==◌, contains,
}
use paperless_iq.Grooming.Classify.{Action, add, remove, replace, review}

-- A tag, or one of the two single-valued types.
pub data Kind : Type 0 where
  tag correspondent document_type : Kind

-- The fields of a candidate that the loop reads.
pub record Proposal : Type 0 where
  pub kind : Kind
  pub action : Action
  pub entity_id : ℕ
  pub entity_name : String
  pub replacement_entity_name : Option String

-- The ids that the document has now.
pub record Current : Type 0 where
  pub correspondent_id : Option ℕ
  pub document_type_id : Option ℕ

-- The corrected values, and `valid_actions`.
pub record Corrected : Type 0 where
  pub corrected_tags : List String
  pub corrected_corr : Option String
  pub corrected_dt : Option String
  pub valid_actions : List Proposal

-- `tags.remove(name)`: the first of them.
unfoldable pub remove_first : String → List String → List String
remove_first name [] = []
remove_first name (t ∷ ts) = let rest = remove_first name ts in if t == name then ts else t ∷ rest

abbrev pub accept : Proposal → Corrected → Corrected
accept p c = record c { valid_actions = c.valid_actions ++ p ∷ [] }

unfoldable pub tag_step : Proposal → Action → Corrected → Corrected
unfolding remove_first
tag_step p add c =
    if contains c.corrected_tags p.entity_name
    then c
    else accept p (record c { corrected_tags = c.corrected_tags ++ p.entity_name ∷ [] })
tag_step p remove c =
    if contains c.corrected_tags p.entity_name
    then accept p (record c { corrected_tags = remove_first p.entity_name c.corrected_tags })
    else c
tag_step p replace c = accept p c
tag_step p review c = accept p c

-- `current_id == a["entity_id"]`
abbrev pub is_current : Option ℕ → ℕ → Bool
is_current none i = false
is_current (some j) i = eqb j i

abbrev pub set_field : Kind → Option String → Corrected → Corrected
set_field kind none c = c
set_field correspondent (some name) c = record c { corrected_corr = some name }
set_field document_type (some name) c = record c { corrected_dt = some name }
set_field tag (some name) c = record c { corrected_dt = some name }

unfoldable pub field_step : Kind → Option ℕ → Proposal → Action → Corrected → Corrected
field_step kind current_id p add c =
    if is_some current_id then c else accept p (set_field kind (some p.entity_name) c)
field_step kind current_id p replace c =
    if is_current current_id p.entity_id
    then accept p (set_field kind p.replacement_entity_name c)
    else c
field_step kind current_id p remove c = if is_current current_id p.entity_id then accept p c else c
field_step kind current_id p review c = if is_current current_id p.entity_id then accept p c else c

-- One action.
unfoldable pub correct_one : Current → Proposal → Kind → Corrected → Corrected
unfolding tag_step field_step
correct_one now p tag c = tag_step p p.action c
correct_one now p correspondent c = field_step correspondent now.correspondent_id p p.action c
correct_one now p document_type c = field_step document_type now.document_type_id p p.action c

unfoldable pub correct : Current → List Proposal → Corrected → Corrected
unfolding correct_one
correct now [] c = c
correct now (p ∷ ps) c = correct now ps (correct_one now p p.kind c)
