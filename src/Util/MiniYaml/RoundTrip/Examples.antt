-- ===== src/Util/MiniYaml/RoundTrip/Examples.antt =====
-- util/miniyaml.py: tests of the reader and the writer, and instances of their theorems.
use Prim.Native.Nat.{◌-◌}
use droid_os.Prelude.{
  ◌+◌, ◌≡◌, refl, true, false, ◌&&◌, [], ◌∷◌, Option, none, some, leb, ◌≢◌, if◌then◌else◌, ok, err,
}
use droid_os.Prelude.Int.{ℤ, pos, negsuc}
use droid_os.Util.MiniYaml.Text.{
  Text, codes, is_break, is_space, text_eq, has, starts_with, strip_left, strip_right, strip,
  before, after, lines_from, split_lines, join_with, first_char, last_char, without_first,
  without_last, spaces,
}
use droid_os.Util.MiniYaml.Values.{
  bool, int, str, list, dict, Items, nil, cons, Fields, end, field, Conversions, assign, items_of,
}
use droid_os.Util.MiniYaml.Lines.{
  cut_comment, strip_comment, indent_of, is_skipped, clean_each, clean_lines, block_scalar_kind,
}
use droid_os.Util.MiniYaml.Scalars.{
  flow_parts, split_flow, word_value, is_quoted, is_flow, inside, scalar_each, flow_list,
  number_or_text, scalar_on, scalar,
}
use droid_os.Util.MiniYaml.Parser.{
  out_of_fuel, expected_pair, unexpected_item, is_item, opens_item, read_scalar, entry_value,
  is_inline_map, map_fault, parse_block, finish, parse_lines, parse,
}
use droid_os.Util.MiniYaml.Dumper.{
  needs_quotes, quoted_if_needed, dump_scalar, is_filled, without_newlines, written, dump,
}
use droid_os.Util.MiniYaml.RoundTrip.Writable.{
  is_noisy, is_special, is_key, has_key, is_mapping, IsBare, IsScalar, AreItems, item, no_more,
  scalar as is_scalar, sequence, mapping, AreWritable, last, next,
}
use droid_os.Util.MiniYaml.RoundTrip.Outline.{is_solid}
use droid_os.Util.MiniYaml.RoundTrip.Whole.{parse-dump}
use droid_os.Util.MiniYaml.RoundTrip.Limits.{numeral_text_becomes_number, scalar_document_fails}
use droid_os.Util.MiniYaml.RoundTrip.Dropped.{under_indented_line_dropped}
use droid_os.Util.MiniYaml.Ends.Blocks.{parse_terminates}

-- Python's conversions, on the numbers of one digit
digit : Text → Option ℤ
digit (c ∷ []) = if leb 48 c && leb c 57 then some (pos (c - 48)) else none
digit text = none

digits : ℤ → Text
digits (pos n) = (48 + n) ∷ []
digits (negsuc n) = 45 ∷ (49 + n) ∷ []

abbrev py : Conversions
py = record {
  parse_int = digit;
  parse_float = λ text. none;
  str_of_int = digits;
  str_of_container = λ v. [];
}

-- name: "gait: fast"
-- limits:
--   legs: 4
-- joints:
--   - 4
--   - true
abbrev legs : Fields
legs = field (codes "legs") (int (pos 4)) end

abbrev joints : Items
joints = cons (int (pos 4)) (cons (bool true) nil)

abbrev limits : Fields
limits = field (codes "limits") (dict legs) (field (codes "joints") (list joints) end)

abbrev gait : Fields
gait = field (codes "name") (str (codes "gait: fast")) limits

gait_text :
    dump py (dict gait) 0
    ≡ codes "name: \"gait: fast\"\nlimits:\n  legs: 4\njoints:\n  - 4\n  - true\n"
unfolding dump written join_with spaces is_filled dump_scalar quoted_if_needed needs_quotes has
    strip strip_left strip_right is_space text_eq without_newlines digits
gait_text = refl

flow_and_comment :
    parse py (codes "# legs\nlegs: [4, 'a, b', true] # three\n- x\n")
    ≡ err (unexpected_item (codes "- x"))
unfolding parse clean_lines clean_each split_lines lines_from is_break strip_comment cut_comment
    is_skipped strip strip_left strip_right is_space starts_with indent_of parse_lines parse_block
    opens_item is_item map_fault has entry_value block_scalar_kind first_char before after
    read_scalar scalar scalar_on word_value text_eq is_quoted is_flow last_char inside without_first
    without_last split_flow flow_parts scalar_each flow_list number_or_text digit items_of assign
    finish
flow_and_comment = refl

four-IsBare : IsBare (digits (pos 4))
unfolding digits is_noisy is_break strip strip_left strip_right is_space word_value text_eq is_flow
    block_scalar_kind first_char last_char
four-IsBare = record {
  quiet = refl;
  stripped = refl;
  filled = refl;
  no_word = refl;
  no_flow = refl;
  no_header = refl;
}

four-IsScalar : IsScalar py (int (pos 4))
unfolding digit digits
four-IsScalar = IsScalar.int (pos 4) four-IsBare refl

legs-AreWritable : AreWritable py legs
unfolding is_key is_special is_space has_key
legs-AreWritable = next refl refl (is_scalar four-IsScalar) last

joints-AreItems : AreItems py joints
unfolding is_mapping is_inline_map has dump_scalar digits
joints-AreItems = item four-IsScalar refl refl (item (IsScalar.bool true) refl refl no_more)

gait-AreWritable : AreWritable py gait
unfolding is_key is_special is_space has_key text_eq needs_quotes has is_break strip strip_left
    strip_right
gait-AreWritable =
    next refl refl (is_scalar (IsScalar.quoted (codes "gait: fast") refl refl refl))
      (next refl refl (mapping legs-AreWritable) (next refl refl (sequence joints-AreItems) last))

parse_terminates_example : parse py (codes "- - x") ≢ err out_of_fuel
parse_terminates_example = parse_terminates py (codes "- - x")

parse-dump_example : parse py (dump py (dict gait) 0) ≡ ok (dict gait)
parse-dump_example = parse-dump py (codes "name") (str (codes "gait: fast")) limits gait-AreWritable

four_needs_no_quotes : needs_quotes (digits (pos 4)) ≡ false
unfolding needs_quotes digits has text_eq strip strip_left strip_right is_space
four_needs_no_quotes = refl

numeral_text_becomes_number_example :
    parse py (dump py (dict (field (codes "legs") (str (digits (pos 4))) end)) 0)
    ≡ ok (dict (field (codes "legs") (int (pos 4)) end))
numeral_text_becomes_number_example =
    numeral_text_becomes_number py (codes "legs") (pos 4) end four_needs_no_quotes legs-AreWritable

four-is_solid : is_solid (dump_scalar py (int (pos 4))) ≡ true
unfolding is_solid dump_scalar digits is_space starts_with
four-is_solid = refl

four_is_no_item : is_item (dump_scalar py (int (pos 4))) ≡ false
unfolding is_item starts_with dump_scalar digits
four_is_no_item = refl

four_has_no_colon : has 58 (dump_scalar py (int (pos 4))) ≡ false
unfolding has dump_scalar digits
four_has_no_colon = refl

scalar_document_fails_example :
    parse py (dump py (int (pos 4)) 0) ≡ err (expected_pair (dump_scalar py (int (pos 4))))
scalar_document_fails_example =
    scalar_document_fails py (int (pos 4)) four-IsScalar four-is_solid four_is_no_item
      four_has_no_colon

pair-is_inline_map : is_inline_map (strip (codes "a: 4")) ≡ true
unfolding is_inline_map strip strip_left strip_right is_space has first_char
pair-is_inline_map = refl

under_indented_line_dropped_example :
    parse_lines py ((0, codes "- a: 4") ∷ (1, codes "b: 4") ∷ [])
    ≡ parse_lines py ((0, codes "- a: 4") ∷ [])
under_indented_line_dropped_example =
    under_indented_line_dropped py 0 (codes "a: 4") (codes "b: 4") pair-is_inline_map
