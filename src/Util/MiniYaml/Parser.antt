-- ===== src/Util/MiniYaml/Parser.antt =====
-- util/miniyaml.py: blocks, mappings and sequences, by recursive descent over the lines that are left.
use Prim.Native.Nat.{◌*◌}
use droid_os.Prelude.{
  ℕ, zero, suc, ◌+◌, Bool, true, false, not, ◌&&◌, ◌||◌, List, [], ◌∷◌, Option, none, some, ◌==◌,
  ltb, if◌then◌else◌, is_nil, length, Result, ok, err, ◌>>=◌,
}
use droid_os.Util.MiniYaml.Text.{Text, codes, has, starts_with, strip, before, after, first_char}
use droid_os.Util.MiniYaml.Values.{
  Value, null, str, list, dict, Items, nil, Fields, end, Conversions, assign, append_item,
}
use droid_os.Util.MiniYaml.Lines.{
  Line, clean_lines, deeper, past_deeper, block_scalar_kind, block_text,
}
use droid_os.Util.MiniYaml.Scalars.{scalar}

-- The messages of `MiniYamlError`, with the content that they quote. The program never runs out of
-- fuel: that is a fault of the model alone.
pub data Fault : Type 0 where
  out_of_fuel : Fault
  bad_indent bad_list_indent unexpected_item expected_pair unexpected_indentation : Text → Fault

-- a value, and the lines after it
abbrev pub Parsed : Type 0
Parsed = Result Fault (Value × List Line)

unfoldable pub is_item : Text → Bool
is_item content = starts_with (codes "- ") content

unfoldable pub opens_item : List Line → Bool
opens_item [] = false
opens_item (line ∷ lines) = is_item line.1

-- Whether the next line is indented further than `indent`, and its indent.
unfoldable pub opens_block : ℕ → List Line → Bool
opens_block indent [] = false
opens_block indent (line ∷ lines) = ltb indent line.0

unfoldable pub first_indent : List Line → ℕ
first_indent [] = 0
first_indent (line ∷ lines) = line.0

unfoldable pub read_scalar : Conversions → Text → Result Fault Value
read_scalar py text = elim (scalar py text) [ none ↦ err out_of_fuel | some value ↦ ok value ]

-- The value of `key: rest`, where `block` parses a nested block.
unfoldable pub entry_value : Conversions → (List Line → ℕ → Parsed) → ℕ → Text → List Line → Parsed
entry_value py block indent rest lines = elim (block_scalar_kind rest) [
  | some (style, chomp_strip) ↦
      ok (str (block_text style chomp_strip (deeper indent lines)), past_deeper indent lines)
  | none ↦ elim (is_nil rest) [
    | true ↦ elim (opens_block indent lines) [
      | true ↦ block lines (first_indent lines)
      | false ↦ ok (null, lines)
    ]
    | false ↦ read_scalar py rest >>= λ value. ok (value, lines)
  ]
]

-- Whether a sequence's item starts a mapping on its own line.
unfoldable pub is_inline_map : Text → Bool
is_inline_map item = has b':' item && not (first_char item == 39 || first_char item == 34)

-- The value of one item of a sequence, where `mapping` parses the item with the deeper lines. What
-- `mapping` leaves of them is dropped.
unfoldable pub item_value : Conversions → (List Line → ℕ → Parsed) → ℕ → Text → List Line → Parsed
item_value py mapping indent item lines = elim (is_inline_map item) [
  | true ↦ mapping ((indent + 2, item) ∷ deeper indent lines) (indent + 2) >>= λ parsed.
      ok (parsed.0, past_deeper indent lines)
  | false ↦ read_scalar py item >>= λ value. ok (value, lines)
]

-- `content[2:]`
abbrev pub drop_dash : Text → Text
drop_dash (c ∷ d ∷ text) = text
drop_dash _ = []

-- What is wrong with the line of a mapping, if anything.
unfoldable pub map_fault : ℕ → Line → Option Fault
map_fault indent (cur_indent, content) =
    if ltb indent cur_indent
    then some (bad_indent content)
    else if is_item content
    then some (unexpected_item content)
    else if not (has b':' content)
    then some (expected_pair content)
    else none

module _ (py : Conversions) where
  unfoldable mutual
    pub parse_block : ℕ → List Line → ℕ → Parsed
    parse_block zero lines indent = err out_of_fuel
    parse_block (suc fuel) lines indent = elim (opens_item lines) [
      | true ↦ parse_list fuel lines indent nil
      | false ↦ parse_map fuel lines indent end
    ]

    pub parse_map : ℕ → List Line → ℕ → Fields → Parsed
    parse_map zero lines indent result = err out_of_fuel
    parse_map (suc fuel) [] indent result = ok (dict result, [])
    parse_map (suc fuel) (line ∷ lines) indent result = elim (ltb line.0 indent) [
      | true ↦ ok (dict result, line ∷ lines)
      | false ↦ elim (map_fault indent line) [
        | some fault ↦ err fault
        | none ↦
            entry_value py (parse_block fuel) indent (strip (after b':' line.1)) lines >>= λ parsed.
            parse_map fuel parsed.1 indent (assign (strip (before b':' line.1)) parsed.0 result)
      ]
    ]

    pub parse_list : ℕ → List Line → ℕ → Items → Parsed
    parse_list zero lines indent result = err out_of_fuel
    parse_list (suc fuel) [] indent result = ok (list result, [])
    parse_list (suc fuel) (line ∷ lines) indent result =
        elim (ltb line.0 indent || not (is_item line.1) && line.0 == indent) [
          | true ↦ ok (list result, line ∷ lines)
          | false ↦ elim (ltb indent line.0) [
            | true ↦ err (bad_list_indent line.1)
            | false ↦
                item_value py (λ sub at. parse_map fuel sub at end) indent
                  (strip (drop_dash line.1)) lines
                >>= λ parsed. parse_list fuel parsed.1 indent (append_item result parsed.0)
          ]
        ]

  -- The value of the whole block, which must take every line.
  unfoldable pub finish : Value × List Line → Result Fault Value
  finish (value, []) = ok value
  finish (value, line ∷ lines) = err (unexpected_indentation line.1)

  unfoldable pub parse_lines : List Line → Result Fault Value
  parse_lines [] = ok null
  parse_lines (line ∷ lines) =
      parse_block (3 * length (line ∷ lines) + 3) (line ∷ lines) line.0 >>= finish

  unfoldable pub parse : Text → Result Fault Value
  parse text = parse_lines (clean_lines text)
