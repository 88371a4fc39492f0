-- ===== src/Util/MiniYaml/RoundTrip/Items.antt =====
-- util/miniyaml.py: the parser on the lines of a sequence of scalars.
use Prim.Native.Nat.{◌*◌}
use droid_os.Prelude.{
  ℕ, zero, suc, ◌<◌, ◌≡◌, refl, sym, ap, ◌∙◌, true, false, List, [], ◌∷◌, ◌++◌, length, ok, ◌>>=◌,
  arith,
}
use droid_os.Util.MiniYaml.Text.{Text, codes, strip, starts_with}
use droid_os.Util.MiniYaml.Values.{Value, list, Items, nil, cons, Conversions, append_item}
use droid_os.Util.MiniYaml.Lines.{Line}
use droid_os.Util.MiniYaml.Dumper.{dump_scalar}
use droid_os.Util.MiniYaml.Parser.{
  Parsed, is_item, is_inline_map, item_value, read_scalar, parse_block, parse_list,
}
use droid_os.Util.MiniYaml.RoundTrip.Writable.{AreItems, no_more, item}
use droid_os.Util.MiniYaml.RoundTrip.Scalars.{Reads, dump_scalar-Reads}
use droid_os.Util.MiniYaml.RoundTrip.Outline.{item_lines}
use droid_os.Util.MiniYaml.RoundTrip.Parsing.{closes}
use droid_os.Util.MiniYaml.RoundTrip.Steps.{parse_list-step, parse_block-list}

unfoldable append_all : Items → Items → Items
append_all result nil = result
append_all result (cons v items) = append_all (append_item result v) items

append : Items → Items → Items
append nil others = others
append (cons v items) others = cons v (append items others)

append_item-append : (a b : Items) (v : Value) → append (append_item a v) b ≡ append a (cons v b)
unfolding append append_item
append_item-append nil b v = refl
append_item-append (cons w a) b v = ap (cons w) (append_item-append a b v)

append_all-append : (result items : Items) → append_all result items ≡ append result items
unfolding append_all append
append_all-append result nil = sym (append-nil_items result)
  where
    append-nil_items : (a : Items) → append a nil ≡ a
    append-nil_items nil = refl
    append-nil_items (cons v a) = ap (cons v) (append-nil_items a)
append_all-append result (cons v items) =
    append_all-append (append_item result v) items ∙ append_item-append result items v

append_all-nil : (items : Items) → append_all nil items ≡ items
unfolding append
append_all-nil items = append_all-append nil items

module _ (py : Conversions) where
  item_value-scalar :
      (mapping : List Line → ℕ → Parsed) (indent : ℕ) (v : Value) (w : Text) (lines : List Line)
      → Reads py v w
      → is_inline_map w ≡ false
      → item_value py mapping indent (strip w) lines ≡ ok (v, lines)
  unfolding item_value read_scalar
  item_value-scalar mapping indent v w lines r plain =
      ap (λ t. item_value py mapping indent t lines) r.stripped
      ∙ (rw (item_value, plain, read_scalar, r.reads))

  parse_list-closes :
      (fuel indent : ℕ) (lines : List Line) (result : Items)
      → closes indent lines ≡ true
      → parse_list py (suc fuel) lines indent result ≡ ok (list result, lines)
  unfolding parse_block closes
  parse_list-closes fuel indent [] result h = refl
  parse_list-closes fuel indent (line ∷ lines) result h = rw (parse_list, h)

  -- With enough fuel the parser reads a sequence's items off the front of the lines.
  parse_list-items :
      (items : Items) (fuel indent : ℕ) (result : Items) (rest : List Line)
      → AreItems py items
      → 3 * length (item_lines py items indent) < fuel
      → closes indent rest ≡ true
      → parse_list py fuel (item_lines py items indent ++ rest) indent result
        ≡ ok (list (append_all result items), rest)
  unfolding item_lines append_all is_item starts_with
  parse_list-items items zero indent result rest a h c = absurd (omega arith)
  parse_list-items nil (suc fuel) indent result rest no_more h c =
      parse_list-closes fuel indent rest result c
  parse_list-items (cons v items) (suc fuel) indent result rest (item s flat plain a) h c =
      let w = dump_scalar py v in
      let line : Line = (indent, codes "- " ++ w) in
      let lines = item_lines py items indent ++ rest in
      parse_list-step py fuel line lines result refl
      ∙ (ap
            (λ (r : Parsed).
              r >>= λ parsed. parse_list py fuel parsed.1 indent (append_item result parsed.0))
            (item_value-scalar _ indent v w lines (dump_scalar-Reads py v s) plain)
          ∙ parse_list-items items fuel indent (append_item result v) rest a (omega arith) c)

  -- A block whose first line is an item is a sequence.
  pub parse_block-items :
      (v : Value) (items : Items) (fuel indent : ℕ) (rest : List Line)
      → AreItems py (cons v items)
      → 3 * length (item_lines py (cons v items) indent) < fuel
      → closes indent rest ≡ true
      → parse_block py (suc fuel) (item_lines py (cons v items) indent ++ rest) indent
        ≡ ok (list (cons v items), rest)
  unfolding item_lines is_item starts_with
  parse_block-items v items fuel indent rest a h c =
      let line : Line = (indent, codes "- " ++ dump_scalar py v) in
      parse_block-list py fuel line (item_lines py items indent ++ rest) refl
      ∙ (parse_list-items (cons v items) fuel indent nil rest a h c
          ∙ ap (λ all. ok (list all, rest)) (append_all-nil (cons v items)))
