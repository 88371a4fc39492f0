-- ===== src/Util/MiniYaml/RoundTrip/Whole.antt =====
-- util/miniyaml.py: dumping writable nested mappings and reading the text gives them back.
use Prim.Native.Nat.{◌*◌}
use mathlib.Core.List.{append_assoc, append-nil}
use droid_os.Prelude.{
  ℕ, zero, suc, ◌+◌, ◌<◌, ◌≡◌, refl, sym, ap, ◌∙◌, true, List, [], ◌∷◌, ◌++◌, length, ok, ◌>>=◌,
  arith,
}
use droid_os.Util.MiniYaml.Text.{Text, codes}
use droid_os.Util.MiniYaml.Values.{
  Value, list, dict, nil, cons, Fields, end, field, Conversions, assign,
}
use droid_os.Util.MiniYaml.Lines.{Line, clean_lines}
use droid_os.Util.MiniYaml.Dumper.{dump, dump_scalar, is_filled}
use droid_os.Util.MiniYaml.Parser.{parse_block, parse_map, parse_lines, parse, finish}
use droid_os.Util.MiniYaml.RoundTrip.Writable.{
  is_key, IsScalar, IsWritable, scalar, sequence, mapping, AreWritable, last, next,
}
use droid_os.Util.MiniYaml.RoundTrip.Scalars.{dump_scalar-Reads}
use droid_os.Util.MiniYaml.RoundTrip.Outline.{item_lines, inner_lines, outline, entry_text}
use droid_os.Util.MiniYaml.RoundTrip.Entries.{
  entry_text-opened, entry_text-valued, IsScalar→unfilled, inner_lines-scalar, outline-IsClean,
}
use droid_os.Util.MiniYaml.RoundTrip.Items.{parse_block-items}
use droid_os.Util.MiniYaml.RoundTrip.Cleaning.{clean_lines-raw}
use droid_os.Util.MiniYaml.RoundTrip.Dumping.{dump-unlines}
use droid_os.Util.MiniYaml.RoundTrip.Assigning.{assign_all, assign_all-end}
use droid_os.Util.MiniYaml.RoundTrip.Parsing.{
  closes, length-append_lines, parse_map-entry, entry_value-scalar, entry_value-block,
  parse_map-closes, closes-inner, parse_block-mapping, is_item-entry_text,
}

entry_of_scalar :
    (py : Conversions) (key : Text) (v : Value) (fuel indent : ℕ) (result : Fields)
    (lines : List Line)
    → is_key key ≡ true
    → IsScalar py v
    → parse_map py (suc fuel) ((indent, key ++ 58 ∷ 32 ∷ dump_scalar py v) ∷ lines) indent result
      ≡ parse_map py fuel lines indent (assign key v result)
entry_of_scalar py key v fuel indent result lines named s =
    let w = dump_scalar py v in
    parse_map-entry py key named fuel indent (32 ∷ w) v lines lines result (
      entry_value-scalar py key named (parse_block py fuel) indent v w lines
        (dump_scalar-Reads py v s))

entry_of_block :
    (py : Conversions) (key t : Text) (v : Value) (fuel indent : ℕ) (result : Fields)
    (lines others : List Line)
    → is_key key ≡ true
    → is_filled v ≡ true
    → parse_block py fuel ((indent + 2, t) ∷ lines) (indent + 2) ≡ ok (v, others)
    → parse_map py
        (suc fuel)
        ((indent, entry_text py key v) ∷ ((indent + 2, t) ∷ lines))
        indent
        result
      ≡ parse_map py fuel others indent (assign key v result)
entry_of_block py key t v fuel indent result lines others named filled parsed =
    let line : Line = (indent + 2, t) in
    rw (entry_text-opened py indent key named v filled) (
      parse_map-entry py key named fuel indent [] v (line ∷ lines) others result (
        entry_value-block py key named (parse_block py fuel) indent line lines (ground arith)
        ∙ parsed))

-- With enough fuel the parser reads a block's entries off the front of the lines.
mutual
  unfolding outline assign_all inner_lines item_lines entry_text is_filled

  parse_each-outline :
      (py : Conversions) (fields : Fields) (fuel indent : ℕ) (result : Fields) (rest : List Line)
      → AreWritable py fields
      → 3 * length (outline py fields indent) < fuel
      → closes indent rest ≡ true
      → parse_map py fuel (outline py fields indent ++ rest) indent result
        ≡ ok (dict (assign_all fields result), rest)
  parse_each-outline py fields zero indent result rest a h c = absurd (omega arith)
  parse_each-outline py end (suc fuel) indent result rest last h c =
      parse_map-closes py fuel indent rest result c
  parse_each-outline py (field key v fields) (suc fuel) indent result rest (next named fresh w a) h
        c =
      let inner = inner_lines py v (indent + 2) in
      let others = outline py fields indent in
      let long = length-append_lines inner others in
      ap (λ lines. parse_map py (suc fuel) ((indent, entry_text py key v) ∷ lines) indent result)
        (append_assoc inner others rest)
      ∙ (parse_entry py key v fields fuel indent result rest named w (omega arith) c
          ∙ parse_each-outline py fields fuel indent (assign key v result) rest a (omega arith) c)

  parse_entry :
      (py : Conversions) (key : Text) (v : Value) (fields : Fields) (fuel indent : ℕ)
      (result : Fields) (rest : List Line)
      → is_key key ≡ true
      → IsWritable py v
      → 3 * length (inner_lines py v (indent + 2)) + 2 < fuel
      → closes indent rest ≡ true
      → parse_map py
          (suc fuel)
          ((indent, entry_text py key v)
            ∷ (inner_lines py v (indent + 2) ++ (outline py fields indent ++ rest)))
          indent
          result
        ≡ parse_map py fuel (outline py fields indent ++ rest) indent (assign key v result)
  parse_entry py key v fields fuel indent result rest named (scalar s) h c =
      rw
        (
          entry_text-valued py indent key named v (IsScalar→unfilled py v s),
          inner_lines-scalar py v (indent + 2) s,
        )
        (entry_of_scalar py key v fuel indent result (outline py fields indent ++ rest) named s)
  parse_entry py key v fields fuel indent result rest named (mapping {fields = end} a) h c =
      entry_of_scalar py key (dict end) fuel indent result (outline py fields indent ++ rest) named
        IsScalar.empty_dict
  parse_entry py key v fields fuel indent result rest named (sequence {items = nil} a) h c =
      entry_of_scalar py key (list nil) fuel indent result (outline py fields indent ++ rest) named
        IsScalar.empty_list
  parse_entry py key v fields zero indent result rest named w h c = absurd (omega arith)
  parse_entry py key v fields (suc fuel) indent result rest named
        (sequence {items = cons x items} a) h c =
      let others = outline py fields indent ++ rest in
      entry_of_block py key (codes "- " ++ dump_scalar py x) (list (cons x items)) (suc fuel) indent
        result (item_lines py items (indent + 2) ++ others) others named refl
        (parse_block-items py x items fuel (indent + 2) others a (omega arith)
          (closes-inner py fields indent rest c))
  parse_entry py key v fields (suc fuel) indent result rest named
        (mapping {fields = field k u more} (next named' fresh w a)) h c =
      let block = field k u more in
      let others = outline py fields indent ++ rest in
      let line : Line = (indent + 2, entry_text py k u) in
      let lines = (inner_lines py u (indent + 2 + 2) ++ outline py more (indent + 2)) ++ others in
      entry_of_block py key (entry_text py k u) (dict block) (suc fuel) indent result lines others
        named refl
        (parse_block-mapping py fuel (indent + 2) line lines (is_item-entry_text py k u named')
          ∙ (parse_each-outline py block fuel (indent + 2) end others (next named' fresh w a)
                (omega arith) (closes-inner py fields indent rest c)
              ∙ ap (λ d. ok (dict d, others)) (assign_all-end py block (next named' fresh w a))))

parse_lines-outline :
    (py : Conversions) (key : Text) (v : Value) (rest : Fields)
    → let fields = field key v rest in
      AreWritable py fields → parse_lines py (outline py fields 0) ≡ ok (dict fields)
unfolding outline parse_lines finish closes
parse_lines-outline py key v rest (next named fresh w a) =
    let fields = field key v rest in
    let line : Line = (0, entry_text py key v) in
    let more = inner_lines py v 2 ++ outline py rest 0 in
    let lines = line ∷ more in
    let enough = 3 * length lines + 2 in
    let enough_suc : 3 * length lines + 3 ≡ suc enough = omega arith in
    let read =
      parse_each-outline py fields enough 0 end [] (next named fresh w a) (omega arith) refl
      ∙ ap (λ d. ok (dict d, [])) (assign_all-end py fields (next named fresh w a)) in
    ap (λ fuel. parse_block py fuel lines 0 >>= finish py) enough_suc
    ∙ ap (λ parsed. parsed >>= finish py)
        (parse_block-mapping py enough 0 line more (is_item-entry_text py key v named)
          ∙ (ap (λ ls. parse_map py enough ls 0 end) (sym (append-nil lines)) ∙ read))

-- Dumping a mapping with some entry and reading the text gives the mapping back, for nested
-- mappings with sequences of scalars in them, whose keys are words that differ within a mapping,
-- and whose scalars are null, Booleans, empty containers, numbers that Python reads back, texts that
-- need no quotes, hold no quote character and read as texts, and texts that the writer quotes, without a double quote or a
-- line break. An item of a sequence is no mapping and does not read as `key: value`.
pub parse-dump :
    (py : Conversions) (key : Text) (v : Value) (rest : Fields)
    → AreWritable py (field key v rest)
    → parse py (dump py (dict (field key v rest)) 0) ≡ ok (dict (field key v rest))
unfolding parse
parse-dump py key v rest a =
    let lines = outline py (field key v rest) 0 in
    ap (λ text. parse_lines py (clean_lines text)) (dump-unlines py key v rest a)
    ∙ (ap (parse_lines py) (clean_lines-raw lines (outline-IsClean py (field key v rest) 0 a))
        ∙ parse_lines-outline py key v rest a)
