-- ===== src/Analyzer/SelectValues.antt =====
-- The select values that _apply_creation_policy (backend/analyzer.py) lets through, at approval:
-- _resolve_custom_fields (backend/approval_queue.py).
use paperless_iq.Prelude.{String, ◌≡◌, some, nat_eq, string_eq, Somewhere}
use paperless_iq.Approval.Py.{Py, Value, text}
use paperless_iq.Approval.Exec.{ok}
use paperless_iq.Approval.Entities.{Item}
use paperless_iq.Approval.CustomFields.{field_value}
use paperless_iq.Analyzer.OptionLabels.{OptionFor}

module _ {F : Type 0} (py : Py F) where
  -- What becomes of a select value: it is null, or a label of the field whose approval writes the id
  -- of an option for that label.
  pub record Selected (cf : Item) (value : Value) : Type 0 where
    pub label : String
    pub canonical_label : value ≡ text label
    pub registered : Somewhere (λ o. o.1 ≡ some label) cf.options
    pub oid : String
    pub written : field_value py cf value ≡ ok (text oid)
    pub option_id : OptionFor py cf.options label oid
