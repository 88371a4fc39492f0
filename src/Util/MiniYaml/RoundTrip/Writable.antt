-- ===== src/Util/MiniYaml/RoundTrip/Writable.antt =====
-- util/miniyaml.py: the values that the YAML subset can express.
use droid_os.Prelude.{
  ℕ, ◌≡◌, Bool, true, false, not, ◌&&◌, ◌||◌, [], ◌∷◌, none, some, ◌==◌, is_nil, any,
}
use droid_os.Prelude.Int.{ℤ}
use droid_os.Util.MiniYaml.Text.{Text, text_eq, strip, is_space, is_break, has}
use droid_os.Util.MiniYaml.Values.{
  Value, str, list, dict, Items, nil, cons, Fields, end, field, Conversions,
}
use droid_os.Util.MiniYaml.Lines.{block_scalar_kind}
use droid_os.Util.MiniYaml.Scalars.{word_value, is_flow}
use droid_os.Util.MiniYaml.Parser.{is_inline_map}
use droid_os.Util.MiniYaml.Dumper.{needs_quotes, dump_scalar}

-- characters that end a line, open a quote or open a comment
unfoldable pub is_noisy : ℕ → Bool
is_noisy c = is_break c || (c == 34 || (c == 35 || c == 39))

-- A text that reads as it is written without quotes, unless it is a number.
pub record IsBare (w : Text) : Type 0 where
  pub quiet : any is_noisy w ≡ false
  pub stripped : strip w ≡ w
  pub filled : is_nil w ≡ false
  pub no_word : word_value w ≡ none
  pub no_flow : is_flow w ≡ false
  pub no_header : block_scalar_kind w ≡ none

pub data IsScalar (py : Conversions) : Value → Type 0 where
  null : IsScalar py Value.null
  bool : (b : Bool) → IsScalar py (Value.bool b)
  empty_list : IsScalar py (list nil)
  empty_dict : IsScalar py (dict end)
  int :
      (n : ℤ)
      → IsBare (py.str_of_int n)
      → py.parse_int (py.str_of_int n) ≡ some n
      → IsScalar py (Value.int n)
  float :
      (x : Text)
      → IsBare x
      → py.parse_int x ≡ none
      → py.parse_float x ≡ some x
      → IsScalar py (Value.float x)
  bare :
      (s : Text)
      → needs_quotes s ≡ false
      → IsBare s
      → py.parse_int s ≡ none
      → py.parse_float s ≡ none
      → IsScalar py (str s)
  quoted :
      (s : Text)
      → needs_quotes s ≡ true
      → has 34 s ≡ false
      → any is_break s ≡ false
      → IsScalar py (str s)

unfoldable pub is_special : ℕ → Bool
is_special c = is_space c || (c == 34 || (c == 35 || (c == 39 || c == 58)))

-- A key that can stand before a colon: no blank, quote, `#` or colon in it, no `-` or `.` before it.
unfoldable pub is_key : Text → Bool
is_key [] = false
is_key (c ∷ key) = not (c == 45 || c == 46) && not (any is_special (c ∷ key))

unfoldable pub has_key : Text → Fields → Bool
has_key key end = false
has_key key (field k v fields) = text_eq k key || has_key key fields

unfoldable pub is_mapping : Value → Bool
is_mapping (dict fields) = true
is_mapping _ = false

-- The items of a sequence: scalars that do not read as `key: value`.
pub data AreItems (py : Conversions) : Items → Type 0 where
  no_more : AreItems py nil
  item :
      {v : Value} {items : Items}
      → IsScalar py v
      → is_mapping v ≡ false
      → is_inline_map (dump_scalar py v) ≡ false
      → AreItems py items
      → AreItems py (cons v items)

-- Nested mappings of scalars and of sequences of scalars, with keys that differ within a mapping.
mutual
  pub data IsWritable (py : Conversions) : Value → Type 0 where
    scalar : {v : Value} → IsScalar py v → IsWritable py v
    sequence : {items : Items} → AreItems py items → IsWritable py (list items)
    mapping : {fields : Fields} → AreWritable py fields → IsWritable py (dict fields)

  pub data AreWritable (py : Conversions) : Fields → Type 0 where
    last : AreWritable py end
    next :
        {key : Text} {v : Value} {fields : Fields}
        → is_key key ≡ true
        → has_key key fields ≡ false
        → IsWritable py v
        → AreWritable py fields
        → AreWritable py (field key v fields)
