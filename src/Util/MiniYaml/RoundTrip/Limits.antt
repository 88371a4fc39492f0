-- ===== src/Util/MiniYaml/RoundTrip/Limits.antt =====
-- util/miniyaml.py: what the writer writes and the parser does not read back.
use droid_os.Prelude.{◌≡◌, refl, ap, ◌∙◌, true, false, [], ◌∷◌, map, some, ok, err, ◌>>=◌}
use droid_os.Prelude.Int.{ℤ}
use droid_os.Util.MiniYaml.Text.{
  Text, has, text_eq, spaces, strip, strip_left, strip_right, is_space,
}
use droid_os.Util.MiniYaml.Values.{Value, str, int, dict, Fields, end, field, Conversions}
use droid_os.Util.MiniYaml.Lines.{clean_lines}
use droid_os.Util.MiniYaml.Dumper.{
  dump, dump_scalar, needs_quotes, quoted_if_needed, is_filled, container_text, written,
}
use droid_os.Util.MiniYaml.Parser.{parse, parse_lines, finish, expected_pair, map_fault, is_item}
use droid_os.Util.MiniYaml.RoundTrip.Texts.{unlines}
use droid_os.Util.MiniYaml.RoundTrip.Writable.{IsScalar, AreWritable}
use droid_os.Util.MiniYaml.RoundTrip.Scalars.{dump_scalar-Reads}
use droid_os.Util.MiniYaml.RoundTrip.Outline.{is_solid, IsClean, raw}
use droid_os.Util.MiniYaml.RoundTrip.Cleaning.{clean_lines-raw}
use droid_os.Util.MiniYaml.RoundTrip.Parsing.{parse_block-mapping}
use droid_os.Util.MiniYaml.RoundTrip.Steps.{parse_map-fault}
use droid_os.Util.MiniYaml.RoundTrip.Whole.{parse-dump}

-- A text that is written like a whole number is dumped without quotes, and reading the mapping
-- back gives the number in its place.
pub numeral_text_becomes_number :
    (py : Conversions) (key : Text) (n : ℤ) (rest : Fields)
    → needs_quotes (py.str_of_int n) ≡ false
    → AreWritable py (field key (int n) rest)
    → parse py (dump py (dict (field key (str (py.str_of_int n)) rest)) 0)
      ≡ ok (dict (field key (int n) rest))
unfolding dump is_filled dump_scalar quoted_if_needed
numeral_text_becomes_number py key n rest plain a = rw plain (parse-dump py key (int n) rest a)

dump-scalar :
    (py : Conversions) (v : Value)
    → IsScalar py v
    → dump py v 0 ≡ unlines (map raw ((0, dump_scalar py v) ∷ []))
unfolding dump dump_scalar quoted_if_needed container_text written unlines spaces needs_quotes has
    text_eq strip strip_left strip_right is_space
dump-scalar py v IsScalar.null = refl
dump-scalar py v (IsScalar.bool b) = refl
dump-scalar py v IsScalar.empty_list = refl
dump-scalar py v IsScalar.empty_dict = refl
dump-scalar py v (IsScalar.int n b r) = refl
dump-scalar py v (IsScalar.float x b r q) = refl
dump-scalar py v (IsScalar.bare s e b r q) = refl
dump-scalar py v (IsScalar.quoted s e h k) = refl

bare_fault :
    (t : Text) → is_item t ≡ false → has 58 t ≡ false → map_fault 0 (0, t) ≡ some (expected_pair t)
unfolding map_fault
bare_fault t no_item bare = rw (no_item, bare)

-- A document that is one scalar or one empty container, written without a colon, and with no
-- blank, no dash of an item and no marker of a document in front, is dumped to a text that the
-- parser refuses.
pub scalar_document_fails :
    (py : Conversions) (v : Value)
    → IsScalar py v
    → is_solid (dump_scalar py v) ≡ true
    → is_item (dump_scalar py v) ≡ false
    → has 58 (dump_scalar py v) ≡ false
    → parse py (dump py v 0) ≡ err (expected_pair (dump_scalar py v))
unfolding parse parse_lines
scalar_document_fails py v s solid no_item bare =
    let w = dump_scalar py v in
    let r = dump_scalar-Reads py v s in
    let clean : IsClean (0, w) = record {
      one_line = r.one_line;
      uncommented = r.uncommented;
      stripped = r.stripped;
      solid = solid;
    } in
    ap (λ text. parse_lines py (clean_lines text)) (dump-scalar py v s)
    ∙ (ap (parse_lines py) (clean_lines-raw ((0, w) ∷ []) (clean, tt))
        ∙ ap (λ parsed. parsed >>= finish py)
            (parse_block-mapping py 5 0 (0, w) [] no_item
              ∙ parse_map-fault py 4 (0, w) [] end (expected_pair w) (bare_fault w no_item bare)))
