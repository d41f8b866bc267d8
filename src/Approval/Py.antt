-- ===== src/Approval/Py.antt =====
-- What approval_queue.py uses of Python's text, float and JSON functions. They are parameters: no
-- theorem assumes a law of them.
use paperless_iq.Prelude.{ℕ, String, Bool, Option, List}
use paperless_iq.Prelude.Dict.{Dict}

-- A JSON value of a custom field. The code only asks whether it is None, a bool or a text, and for
-- its `str`; a number and a list or dict carry that.
pub data Value : Type 0 where
  null : Value
  boolean : Bool → Value
  text : String → Value
  number : String → Value
  structure : String → Value

-- `int(x)` of a float `x`, as the `str` of the integer, or the exception.
pub data IntResult : Type 0 where
  whole : String → IntResult
  value_error overflow_error : IntResult

pub record Py (F : Type 0) : Type 0 where
  pub lower : String → String
  pub strip : String → String
  pub comma_to_dot : String → String
  -- `s[:n]`
  pub clip : ℕ → String → String
  -- `str(value)`
  pub render : Value → String
  -- `a == b`
  pub same_value : Value → Value → Bool
  pub dumps_tags : List String → String
  pub dumps_fields : Dict String Value → String
  -- `float(s)`; None where it raises ValueError.
  pub parse_float : String → Option F
  -- `f"{x:.2f}"`, `str(x)` and `int(x)`
  pub fixed2 : F → String
  pub show_float : F → String
  pub truncate : F → IntResult
