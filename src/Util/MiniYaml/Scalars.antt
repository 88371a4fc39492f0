-- ===== src/Util/MiniYaml/Scalars.antt =====
-- util/miniyaml.py: scalars and inline flow sequences.
use droid_os.Prelude.{
  ℕ, zero, suc, Bool, true, false, not, ◌&&◌, ◌||◌, List, [], ◌∷◌, ◌++◌, Option, none, some, ◌==◌,
  leb, if◌then◌else◌, is_nil, length,
}
use droid_os.Util.MiniYaml.Text.{
  Text, codes, text_eq, strip, first_char, last_char, without_first, without_last,
}
use droid_os.Util.MiniYaml.Values.{
  Value, null, bool, int, float, str, list, dict, nil, end, Conversions, items_of,
}
use droid_os.Util.MiniYaml.Lines.{quote_single, quote_double}

-- The loop of `_split_flow`, with `buf` read so far.
unfoldable pub flow_parts : Bool → Bool → Text → Text → List Text
flow_parts single double buf [] = let part = strip buf in if is_nil part then [] else part ∷ []
flow_parts single double buf (c ∷ inner) =
    let single' = quote_single c single double in
    let double' = quote_double c single double in
    elim (c == b',' && not single' && not double') [
      | true ↦ strip buf ∷ flow_parts single' double' [] inner
      | false ↦ flow_parts single' double' (buf ++ c ∷ []) inner
    ]

unfoldable pub split_flow : Text → List Text
split_flow = flow_parts false false []

-- the words that stand for a value
unfoldable pub word_value : Text → Option Value
word_value token =
    if is_nil token
      || (text_eq token (codes "null")
          || (text_eq token (codes "~") || text_eq token (codes "None")))
    then some null
    else if text_eq token (codes "true") || text_eq token (codes "True")
    then some (bool true)
    else if text_eq token (codes "false") || text_eq token (codes "False")
    then some (bool false)
    else if text_eq token (codes "[]")
    then some (list nil)
    else if text_eq token (codes "{}")
    then some (dict end)
    else none

unfoldable pub is_quoted : Text → Bool
is_quoted token =
    leb 2 (length token)
    && (first_char token == last_char token && (first_char token == 39 || first_char token == 34))

unfoldable pub is_flow : Text → Bool
is_flow token = leb 2 (length token) && (first_char token == b'[' && last_char token == b']')

unfoldable pub inside : Text → Text
inside token = without_first (without_last token)

abbrev with_first : Value → Option (List Value) → Option (List Value)
with_first value none = none
with_first value (some values) = some (value ∷ values)

-- `[_scalar(part) for part in parts]`
unfoldable pub scalar_each : (Text → Option Value) → List Text → Option (List Value)
scalar_each read [] = some []
scalar_each read (part ∷ parts) = elim (read part) [
  | none ↦ none
  | some value ↦ with_first value (scalar_each read parts)
]

unfoldable pub flow_list : Option (List Value) → Option Value
flow_list none = none
flow_list (some values) = some (list (items_of values))

module _ (py : Conversions) where
  unfoldable pub number_or_text : Text → Value
  number_or_text token = elim (py.parse_int token) [
    | some n ↦ int n
    | none ↦ elim (py.parse_float token) [ some x ↦ float x | none ↦ str token ]
  ]

  -- `_scalar`. A flow sequence reads its parts with one unit of fuel less; none where it runs out.
  unfoldable pub scalar_on : ℕ → Text → Option Value
  scalar_on zero text = none
  scalar_on (suc fuel) text =
      let token = strip text in
      elim (word_value token) [
        | some value ↦ some value
        | none ↦ elim (is_quoted token) [
          | true ↦ some (str (inside token))
          | false ↦ elim (is_flow token) [
            | true ↦ flow_list (scalar_each (scalar_on fuel) (split_flow (strip (inside token))))
            | false ↦ some (number_or_text token)
          ]
        ]
      ]

  -- With a unit of fuel for each character, and one more.
  unfoldable pub scalar : Text → Option Value
  scalar text = scalar_on (suc (length text)) text
