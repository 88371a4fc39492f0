-- ===== src/Util/MiniYaml/RoundTrip/Parsing.antt =====
-- util/miniyaml.py: the parser on the lines of nested mappings.
use droid_os.Prelude.{
  ℕ, suc, ◌+◌, ◌≡◌, refl, ap, ◌∙◌, Bool, true, false, List, [], ◌∷◌, ◌++◌, none, ltb, any, length,
  ok, arith, Bool-cases, inl, inr,
}
use droid_os.Util.MiniYaml.Text.{
  Text, is_space, has, strip, strip_left, strip_right, before, after, starts_with,
}
use droid_os.Util.MiniYaml.Values.{Value, dict, Fields, end, field, Conversions, assign}
use droid_os.Util.MiniYaml.Lines.{Line, block_scalar_kind}
use droid_os.Util.MiniYaml.Dumper.{dump_scalar, is_filled}
use droid_os.Util.MiniYaml.Parser.{
  Parsed, is_item, opens_item, opens_block, first_indent, read_scalar, entry_value, map_fault,
  parse_block, parse_map,
}
use droid_os.Util.MiniYaml.RoundTrip.Texts.{
  before-append, after-append, has-append, strip-blank, strip_self,
}
use droid_os.Util.MiniYaml.RoundTrip.Writable.{is_special, is_key}
use droid_os.Util.MiniYaml.RoundTrip.Scalars.{Reads}
use droid_os.Util.MiniYaml.RoundTrip.Outline.{outline, entry_text, is_key→special}

-- The next line, if there is one, is not part of a block at `indent`.
unfoldable pub closes : ℕ → List Line → Bool
closes indent [] = true
closes indent (line ∷ lines) = ltb line.0 indent

pub length-append_lines : (s t : List Line) → length (s ++ t) ≡ length s + length t
length-append_lines [] t = omega arith
length-append_lines (c ∷ s) t = omega (arith, length-append_lines s t)

has_colon-key : (key : Text) → any is_special key ≡ false → has 58 key ≡ false
unfolding has is_special
has_colon-key [] h = refl
has_colon-key (c ∷ key) h = ground (arith, has_colon-key key)

any_space-key : (key : Text) → any is_special key ≡ false → any is_space key ≡ false
unfolding is_special
any_space-key [] h = refl
any_space-key (c ∷ key) h = ground (arith, any_space-key key)

is_item-key : (key t : Text) → is_key key ≡ true → is_item (key ++ t) ≡ false
unfolding is_item is_key starts_with
is_item-key [] t h = cc
is_item-key (c ∷ key) t h = ground arith

module _ (py : Conversions) (key : Text) (named : is_key key ≡ true) where
  map_fault-key : (indent : ℕ) (t : Text) → map_fault indent (indent, key ++ 58 ∷ t) ≡ none
  unfolding map_fault
  map_fault-key indent t =
      let item = is_item-key key (58 ∷ t) named in let colon = has-append 58 key t in ground arith

  key_of_entry : (t : Text) → strip (before 58 (key ++ 58 ∷ t)) ≡ key
  key_of_entry t =
      let special = is_key→special key named in
      ap strip (before-append 58 key t (has_colon-key key special))
      ∙ strip_self key (any_space-key key special)

  value_of_entry : (t : Text) → strip (after 58 (key ++ 58 ∷ t)) ≡ strip t
  value_of_entry t = ap strip (after-append 58 key t (has_colon-key key (is_key→special key named)))

  -- One entry of a mapping: its line, then what its value takes.
  pub parse_map-entry :
      (fuel indent : ℕ) (t : Text) (v : Value) (lines left : List Line) (result : Fields)
      → entry_value py (parse_block py fuel) indent (strip t) lines ≡ ok (v, left)
      → parse_map py (suc fuel) ((indent, key ++ 58 ∷ t) ∷ lines) indent result
        ≡ parse_map py fuel left indent (assign key v result)
  unfolding parse_block
  parse_map-entry fuel indent t v lines left result h =
      let level : ltb indent indent ≡ false = ground arith in
      rw (parse_map, level, map_fault-key indent t, value_of_entry t, h, key_of_entry t)

  pub entry_value-scalar :
      (block : List Line → ℕ → Parsed) (indent : ℕ) (v : Value) (w : Text) (lines : List Line)
      → Reads py v w
      → entry_value py block indent (strip (32 ∷ w)) lines ≡ ok (v, lines)
  unfolding entry_value read_scalar
  entry_value-scalar block indent v w lines r =
      ap (λ t. entry_value py block indent t lines) (strip-blank w ∙ r.stripped)
      ∙ (rw (entry_value, r.no_header, r.filled, read_scalar, r.reads))

  pub entry_value-block :
      (block : List Line → ℕ → Parsed) (indent : ℕ) (line : Line) (lines : List Line)
      → ltb indent line.0 ≡ true
      → entry_value py block indent (strip []) (line ∷ lines) ≡ block (line ∷ lines) line.0
  unfolding entry_value block_scalar_kind opens_block first_indent strip strip_left strip_right
  entry_value-block block indent line lines deep = rw (deep, entry_value)

-- the end of a block
pub parse_map-closes :
    (py : Conversions) (fuel indent : ℕ) (lines : List Line) (result : Fields)
    → closes indent lines ≡ true
    → parse_map py (suc fuel) lines indent result ≡ ok (dict result, lines)
unfolding parse_block closes
parse_map-closes py fuel indent [] result h = refl
parse_map-closes py fuel indent (line ∷ lines) result h = rw (h, parse_map)

-- what closes a block closes the blocks inside it
pub closes-inner :
    (py : Conversions) (fields : Fields) (indent : ℕ) (rest : List Line)
    → closes indent rest ≡ true
    → closes (indent + 2) (outline py fields indent ++ rest) ≡ true
unfolding closes outline
closes-inner py end indent [] h = refl
closes-inner py end indent (line ∷ rest) h = ground arith
closes-inner py (field key v fields) indent rest h = ground arith

pub is_item-entry_text :
    (py : Conversions) (key : Text) (v : Value)
    → is_key key ≡ true
    → is_item (entry_text py key v) ≡ false
unfolding entry_text
is_item-entry_text py key v named = elim (Bool-cases (is_filled v)) [
  | inl filled ↦ rw (filled, entry_text) (is_item-key key (58 ∷ []) named)
  | inr plain ↦ rw (plain, entry_text) (is_item-key key (58 ∷ 32 ∷ dump_scalar py v) named)
]

-- a block whose first line is no item is a mapping
pub parse_block-mapping :
    (py : Conversions) (fuel indent : ℕ) (line : Line) (lines : List Line)
    → is_item line.1 ≡ false
    → parse_block py (suc fuel) (line ∷ lines) indent ≡ parse_map py fuel (line ∷ lines) indent end
unfolding parse_block opens_item
parse_block-mapping py fuel indent line lines h = rw (parse_block, h)
