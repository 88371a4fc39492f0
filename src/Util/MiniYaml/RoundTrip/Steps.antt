-- ===== src/Util/MiniYaml/RoundTrip/Steps.antt =====
-- util/miniyaml.py: one round of each of the parser's loops.
use droid_os.Prelude.{ℕ, suc, ◌≡◌, true, false, ltb, ◌∷◌, List, none, some, err, ◌>>=◌, arith}
use droid_os.Util.MiniYaml.Text.{strip, before, after}
use droid_os.Util.MiniYaml.Values.{Fields, Items, end, nil, Conversions, assign, append_item}
use droid_os.Util.MiniYaml.Lines.{Line}
use droid_os.Util.MiniYaml.Parser.{
  Fault, map_fault, entry_value, item_value, drop_dash, is_item, opens_item, parse_block, parse_map,
  parse_list,
}

module _ (py : Conversions) (fuel : ℕ) (line : Line) (lines : List Line) where
  pub parse_map-fault :
      (result : Fields) (fault : Fault)
      → map_fault line.0 line ≡ some fault
      → parse_map py (suc fuel) (line ∷ lines) line.0 result ≡ err fault
  unfolding parse_block
  parse_map-fault result fault h =
      let level : ltb line.0 line.0 ≡ false = ground arith in rw (parse_map, level, h)

  pub parse_map-step :
      (result : Fields)
      → map_fault line.0 line ≡ none
      → parse_map py (suc fuel) (line ∷ lines) line.0 result ≡ (
          entry_value py (parse_block py fuel) line.0 (strip (after b':' line.1)) lines
          >>= λ parsed.
              parse_map py fuel parsed.1 line.0
                (assign (strip (before b':' line.1)) parsed.0 result))
  unfolding parse_block
  parse_map-step result h =
      let level : ltb line.0 line.0 ≡ false = ground arith in rw (parse_map, level, h)

  pub parse_list-step :
      (result : Items)
      → is_item line.1 ≡ true
      → parse_list py (suc fuel) (line ∷ lines) line.0 result ≡ (
          item_value py
            (λ sub at. parse_map py fuel sub at end)
            line.0
            (strip (drop_dash line.1))
            lines
          >>= λ parsed. parse_list py fuel parsed.1 line.0 (append_item result parsed.0))
  unfolding parse_block
  parse_list-step result h =
      let level : ltb line.0 line.0 ≡ false = ground arith in rw (parse_list, level, h, level)

  pub parse_block-list :
      is_item line.1 ≡ true
      → parse_block py (suc fuel) (line ∷ lines) line.0
        ≡ parse_list py fuel (line ∷ lines) line.0 nil
  unfolding parse_block opens_item
  parse_block-list h = rw (parse_block, h)
