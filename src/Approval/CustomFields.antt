-- ===== src/Approval/CustomFields.antt =====
-- Custom fields: the formatting of a value and the resolution of names and select options
-- (_format_custom_field_value, _resolve_custom_fields).
use paperless_iq.Prelude.{
  ℕ, zero, suc, String, Bool, true, false, Option, none, some, List, [], ◌∷◌, ◌++◌, if◌then◌else◌,
  nat_eq, string_eq, ◌==◌, contains,
}
use paperless_iq.Prelude.Dict.{Dict, get, put}
use paperless_iq.Approval.Exec.{Exec, Result, ok, err, http_failure, overflow, ◌>>=◌}
use paperless_iq.Approval.Py.{
  Py, Value, null, boolean, text, number, IntResult, whole, value_error, overflow_error,
}
use paperless_iq.Approval.Entities.{
  EntityType, Item, Reply, page, refused, unreachable, Server, Net, is_fresh,
}

module _ {F : Type 0} (py : Py F) where
  -- `value is None or (isinstance(value, str) and not value.strip())`
  unfoldable pub is_empty : Value → Bool
  is_empty null = true
  is_empty (text s) = py.strip s == ""
  is_empty value = false

  unfoldable pub format_monetary : Value → Option F → Value
  format_monetary value none = text (py.render value)
  format_monetary value (some num) = text (py.fixed2 num)

  unfoldable pub format_integer : Value → IntResult → Result Value
  format_integer value (whole s) = ok (number s)
  format_integer value value_error = ok value
  format_integer value overflow_error = err overflow

  unfoldable pub format_float : Value → Option F → Value
  format_float value none = value
  format_float value (some x) = number (py.show_float x)

  unfoldable pub format_boolean : Value → Value
  format_boolean (boolean b) = boolean b
  format_boolean value =
      boolean (contains ("true" ∷ "1" ∷ "yes" ∷ "on" ∷ []) (py.lower (py.render value)))

  -- The `except` of the integer case does not catch OverflowError.
  unfoldable pub format_custom_field_value : Value → String → Result Value
  unfolding format_monetary format_integer format_float format_boolean
  format_custom_field_value null data_type = ok null
  format_custom_field_value value data_type =
      if data_type == "monetary"
      then ok
          (format_monetary value (py.parse_float (py.strip (py.comma_to_dot (py.render value)))))
      else if data_type == "integer"
      then elim (py.parse_float (py.render value)) [
        | none ↦ ok value
        | some x ↦ format_integer value (py.truncate x)
      ]
      else if data_type == "float"
      then ok (format_float value (py.parse_float (py.render value)))
      else if data_type == "boolean"
      then ok (format_boolean value)
      else ok value

  -- The first option whose id reads like the value.
  unfoldable pub option_by_id : List (Option String × Option String) → String → Option String
  option_by_id [] normalized_value = none
  option_by_id ((none, label) ∷ options) normalized_value = option_by_id options normalized_value
  option_by_id ((some oid, label) ∷ options) normalized_value =
      if oid == normalized_value then some oid else option_by_id options normalized_value

  -- The first option with an id whose label reads like the value, case and outer spaces aside.
  unfoldable pub option_by_label : List (Option String × Option String) → String → Option String
  option_by_label [] normalized_label = none
  option_by_label ((some oid, some label) ∷ options) normalized_label =
      if py.lower (py.strip label) == normalized_label
      then some oid
      else option_by_label options normalized_label
  option_by_label ((_, _) ∷ options) normalized_label = option_by_label options normalized_label

  abbrev pub first_some : Option String → Option String → Option String
  first_some (some s) o = some s
  first_some none o = o

  abbrev pub selected : Option String → Value
  selected none = null
  selected (some s) = text s

  unfoldable pub select_option : List (Option String × Option String) → Value → Value
  unfolding option_by_id option_by_label
  select_option options value =
      let normalized_value = py.strip (py.render value) in
      selected (
        first_some (option_by_id options normalized_value)
          (option_by_label options (py.lower normalized_value)))

  -- The value that is written for a field that Paperless defines.
  unfoldable pub field_value : Item → Value → Result Value
  unfolding is_empty select_option format_custom_field_value
  field_value info value =
      if is_empty value
      then ok null
      else if info.data_type == "select"
      then ok (select_option info.options value)
      else format_custom_field_value value info.data_type

module _ {F S : Type 0} (py : Py F) (api : Server S) where
  unfoldable pub add_definitions : List Item → Dict String Item → Dict String Item
  add_definitions [] m = m
  add_definitions (item ∷ items) m = add_definitions items (put m (py.lower item.name) item)

  unfoldable pub fetch_definitions : List Reply → Dict String Item → Option (Dict String Item)
  unfolding add_definitions
  fetch_definitions [] m = some m
  fetch_definitions (page items ∷ rest) m = fetch_definitions rest (add_definitions items m)
  fetch_definitions (refused ∷ rest) m = some m
  fetch_definitions (unreachable ∷ rest) m = none

  unfoldable pub definitions_fetched :
      ℕ → Net S → Option (Dict String Item) → Result (Dict String Item) × Net S
  definitions_fetched now net none = (err http_failure, net)
  definitions_fetched now net (some m) = (ok m, record net { fields_cache = some (now, m) })

  unfoldable pub definitions_from : ℕ → Option (Dict String Item) → Exec (Net S) (Dict String Item)
  unfolding definitions_fetched fetch_definitions
  definitions_from now (some m) net = (ok m, net)
  definitions_from now none net =
      definitions_fetched now net
        (fetch_definitions (api.listing EntityType.custom_fields net.server) [])

  unfoldable pub name_to_info : ℕ → Exec (Net S) (Dict String Item)
  unfolding definitions_from
  name_to_info now net = definitions_from now (is_fresh now net.fields_cache) net

  -- A new definition is of type string, and its value is written as it is. The cache stays.
  unfoldable pub defined : String → Value → Net S → Option ℕ × S → List (ℕ × Value) × Net S
  defined name value net (none, s) =
      ([], record net { server = s; posts = (EntityType.custom_fields, name) ∷ net.posts })
  defined name value net (some zero, s) =
      ([], record net { server = s; posts = (EntityType.custom_fields, name) ∷ net.posts })
  defined name value net (some (suc i), s) = (
    (suc i, value) ∷ [],
    record net { server = s; posts = (EntityType.custom_fields, name) ∷ net.posts },
  )

  abbrev pub one_entry : ℕ → Result Value → Result (List (ℕ × Value))
  one_entry i (ok v) = ok ((i, v) ∷ [])
  one_entry i (err e) = err e

  abbrev pub succeed : List (ℕ × Value) × Net S → Result (List (ℕ × Value)) × Net S
  succeed (entries, net) = (ok entries, net)

  -- One entry of the loop: what it adds to `result`.
  unfoldable pub resolve_field :
      Dict String Item → Bool → String → Value → Exec (Net S) (List (ℕ × Value))
  unfolding field_value defined
  resolve_field infos create_missing name value net = elim (get infos (py.lower name)) [
    | some info ↦ (one_entry info.id (field_value py info value), net)
    | none ↦
        if create_missing
        then succeed (defined name value net (api.create EntityType.custom_fields name net.server))
        else (ok [], net)
  ]

  unfoldable pub resolve_fields :
      Dict String Item → Bool → Dict String Value → Exec (Net S) (List (ℕ × Value))
  unfolding resolve_field
  resolve_fields infos create_missing [] net = (ok [], net)
  resolve_fields infos create_missing ((name, value) ∷ fields) net =
      (do
        entry ← resolve_field infos create_missing name value
        entries ← resolve_fields infos create_missing fields
        λ net'. (ok (entry ++ entries), net'))
        net

  unfoldable pub resolve_custom_fields :
      Dict String Value → Bool → ℕ → Exec (Net S) (List (ℕ × Value))
  unfolding name_to_info resolve_fields
  resolve_custom_fields fields create_missing now = do
    infos ← name_to_info now
    resolve_fields infos create_missing fields
