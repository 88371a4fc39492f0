-- ===== src/Util/MiniYaml/Values.antt =====
-- util/miniyaml.py: the values that the module reads and writes, and the conversions that it calls.
use droid_os.Prelude.{Bool, true, false, Option, List, [], ◌∷◌}
use droid_os.Prelude.Int.{ℤ}
use droid_os.Util.MiniYaml.Text.{Text, text_eq}

-- A float is stood for by its `repr`, which identifies it.
mutual
  pub data Value : Type 0 where
    null : Value
    bool : Bool → Value
    int : ℤ → Value
    float : Text → Value
    str : Text → Value
    list : Items → Value
    dict : Fields → Value

  pub data Items : Type 0 where
    nil : Items
    cons : Value → Items → Items

  -- the keys in the order of insertion
  pub data Fields : Type 0 where
    end : Fields
    field : Text → Value → Fields → Fields

-- Python's conversions: `int(text)` and `float(text)`, or none where they raise a ValueError, and
-- `str(value)`.
pub record Conversions : Type 0 where
  pub parse_int : Text → Option ℤ
  pub parse_float : Text → Option Text
  pub str_of_int : ℤ → Text
  pub str_of_container : Value → Text

-- `result[key] = value`
unfoldable pub assign : Text → Value → Fields → Fields
assign key value end = field key value end
assign key value (field k v fields) = elim (text_eq k key) [
  | true ↦ field key value fields
  | false ↦ field k v (assign key value fields)
]

-- `result.append(value)`
unfoldable pub append_item : Items → Value → Items
append_item nil value = cons value nil
append_item (cons v items) value = cons v (append_item items value)

unfoldable pub items_of : List Value → Items
items_of [] = nil
items_of (v ∷ values) = cons v (items_of values)
