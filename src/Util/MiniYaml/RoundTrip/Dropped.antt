-- ===== src/Util/MiniYaml/RoundTrip/Dropped.antt =====
-- util/miniyaml.py: lines under an item that the parser drops.
use mathlib.Core.Path.{fun_ext}
use droid_os.Prelude.{
  ℕ, suc, ◌+◌, ◌≡◌, refl, sym, ap, ◌∙◌, true, false, List, [], ◌∷◌, ◌++◌, ltb, none, some, Result,
  ok, err, ◌>>=◌, arith, is_nil, Bool-cases, Option-cases, inl, inr,
}
use droid_os.Util.MiniYaml.Text.{Text, codes, strip, before, after, starts_with}
use droid_os.Util.MiniYaml.Values.{Value, dict, end, nil, Items, Conversions, assign, append_item}
use droid_os.Util.MiniYaml.Lines.{Line, deeper, past_deeper, block_scalar_kind}
use droid_os.Util.MiniYaml.Scalars.{scalar}
use droid_os.Util.MiniYaml.Parser.{
  Fault, parse_lines, parse_block, parse_map, parse_list, finish, map_fault, is_item, opens_block,
  item_value, entry_value, Parsed, is_inline_map, read_scalar,
}
use droid_os.Util.MiniYaml.RoundTrip.Parsing.{closes, parse_map-closes}
use droid_os.Util.MiniYaml.RoundTrip.Steps.{
  parse_map-fault, parse_map-step, parse_list-step, parse_block-list,
}

module _ (indent : ℕ) where
  deeper-closes : (rest : List Line) → closes indent rest ≡ true → deeper indent rest ≡ []
  unfolding closes deeper
  deeper-closes [] h = refl
  deeper-closes (line ∷ rest) h = ground arith

  past_deeper-closes :
      (rest : List Line) → closes indent rest ≡ true → past_deeper indent rest ≡ rest
  unfolding closes past_deeper
  past_deeper-closes [] h = refl
  past_deeper-closes (line ∷ rest) h = ground arith

  opens_block-closes :
      (rest : List Line) → closes indent rest ≡ true → opens_block indent rest ≡ false
  unfolding closes opens_block
  opens_block-closes [] h = refl
  opens_block-closes (line ∷ rest) h = ground arith

module _ (py : Conversions) where
  -- what a value with no line of its own is, whatever parses the blocks
  value_alone : ℕ → Text → Result Fault Value
  value_alone indent rest =
      entry_value py (λ lines at. ok (dict end, lines)) indent rest [] >>= λ parsed. ok parsed.0

  entry_value-closes :
      (block : List Line → ℕ → Result Fault (Value × List Line)) (indent : ℕ) (rest : Text)
      (lines : List Line)
      → closes indent lines ≡ true
      → entry_value py block indent rest lines
        ≡ (value_alone indent rest >>= λ value. ok (value, lines))
  unfolding value_alone entry_value read_scalar deeper past_deeper opens_block
  entry_value-closes block indent rest lines h = elim (Option-cases (block_scalar_kind rest)) [
    | inr ((style, chomp_strip), kind) ↦
        rw (kind, entry_value, deeper-closes indent lines h, past_deeper-closes indent lines h)
    | inl kind ↦ elim (Bool-cases (is_nil rest)) [
      | inl empty ↦ rw (kind, empty, entry_value, opens_block-closes indent lines h)
      | inr given ↦ elim (Option-cases (scalar py rest)) [
        | inl stuck ↦ rw (kind, given, entry_value, read_scalar, stuck)
        | inr (value, read) ↦ rw (kind, given, entry_value, read_scalar, read)
      ]
    ]
  ]

  -- a mapping of one entry, before lines that close it
  map_alone : ℕ → Text → Result Fault Value
  map_alone indent item = elim (map_fault indent (indent, item)) [
    | some fault ↦ err fault
    | none ↦ value_alone indent (strip (after b':' item)) >>= λ value.
        ok (dict (assign (strip (before b':' item)) value end))
  ]

  map_alone-fault :
      (indent : ℕ) (item : Text) (fault : Fault)
      → map_fault indent (indent, item) ≡ some fault
      → map_alone indent item ≡ err fault
  unfolding map_alone
  map_alone-fault indent item fault h = rw (map_alone, h)

  map_alone-entry :
      (indent : ℕ) (item : Text)
      → map_fault indent (indent, item) ≡ none
      → map_alone indent item ≡ (
          value_alone indent (strip (after b':' item)) >>= λ value.
          ok (dict (assign (strip (before b':' item)) value end)))
  unfolding map_alone
  map_alone-entry indent item h = rw (map_alone, h)

  parse_map-alone :
      (fuel indent : ℕ) (item : Text) (lines : List Line)
      → closes indent lines ≡ true
      → parse_map py (suc (suc fuel)) ((indent, item) ∷ lines) indent end
        ≡ (map_alone indent item >>= λ value. ok (value, lines))
  parse_map-alone fuel indent item lines h =
      let line : Line = (indent, item) in
      let rest = strip (after b':' item) in
      let key = strip (before b':' item) in
      elim (Option-cases (map_fault indent line)) [
        | inr (fault, wrong) ↦
            parse_map-fault py (suc fuel) line lines end fault wrong
            ∙ ap (λ r. r >>= λ value. ok (value, lines))
                (sym (map_alone-fault indent item fault wrong))
        | inl right ↦
            parse_map-step py (suc fuel) line lines end right
            ∙ (ap
                  (λ (r : Parsed). r >>= λ parsed.
                    parse_map py (suc fuel) parsed.1 indent (assign key parsed.0 end))
                  (entry_value-closes (parse_block py (suc fuel)) indent rest lines h)
                ∙ (continued (value_alone indent rest)
                    ∙ ap (λ r. r >>= λ value. ok (value, lines))
                        (sym (map_alone-entry indent item right))))
      ]
    where
      continued :
          (r : Result Fault Value)
          → ◌>>=◌ {A = Value × List Line} (r >>= λ value. ok (value, lines)) (λ parsed.
            parse_map py
              (suc fuel)
              parsed.1
              indent
              (assign (strip (before b':' item)) parsed.0 end))
            ≡ ((r >>= λ value. ok (dict (assign (strip (before b':' item)) value end))) >>= λ value.
                ok (value, lines))
      continued (ok value) =
          parse_map-closes py fuel indent lines (assign (strip (before b':' item)) value end) h
      continued (err e) = refl

  -- what follows an item's value
  then_item :
      {B : Type 0} (r : Result Fault Value) (lines : List Line)
      (k : Value × List Line → Result Fault B)
      → ◌>>=◌ {A = Value × List Line} (r >>= λ value. ok (value, lines)) k
        ≡ (r >>= λ value. k (value, lines))
  then_item (ok value) lines k = refl
  then_item (err e) lines k = refl

  -- an item that starts a mapping, with lines after it that the mapping leaves
  item_value-alone :
      (fuel indent : ℕ) (item : Text) (lines : List Line)
      → is_inline_map item ≡ true
      → closes (indent + 2) (deeper indent lines) ≡ true
      → item_value py (λ sub at. parse_map py (suc (suc fuel)) sub at end) indent item lines
        ≡ (map_alone (indent + 2) item >>= λ value. ok (value, past_deeper indent lines))
  unfolding item_value
  item_value-alone fuel indent item lines inline h =
      rw (item_value, inline)
        (ap (λ (r : Parsed). r >>= λ parsed. ok (parsed.0, past_deeper indent lines))
            (parse_map-alone fuel (indent + 2) item (deeper indent lines) h)
          ∙ then_item (map_alone (indent + 2) item) (deeper indent lines)
              (λ parsed. ok (parsed.0, past_deeper indent lines)))

  parse_block-alone :
      (fuel indent : ℕ) (item : Text) (lines : List Line)
      → is_inline_map (strip item) ≡ true
      → closes (indent + 2) (deeper indent lines) ≡ true
      → past_deeper indent lines ≡ []
      → parse_block py (suc (suc (suc (suc fuel)))) ((indent, codes "- " ++ item) ∷ lines) indent
        ≡ (map_alone (indent + 2) (strip item) >>= λ value.
            parse_list py (suc (suc fuel)) [] indent (append_item nil value))
  unfolding is_item starts_with
  parse_block-alone fuel indent item lines inline h past =
      let line : Line = (indent, codes "- " ++ item) in
      let more = λ (parsed : Value × List Line).
        parse_list py (suc (suc fuel)) parsed.1 indent (append_item nil parsed.0) in
      let alone = map_alone (indent + 2) (strip item) in
      parse_block-list py (suc (suc (suc fuel))) line lines refl
      ∙ (parse_list-step py (suc (suc fuel)) line lines nil refl
          ∙ (ap (λ (r : Parsed). r >>= more)
                (item_value-alone fuel indent (strip item) lines inline h)
              ∙ (then_item alone (past_deeper indent lines) more
                  ∙ ap (λ left. alone >>= λ value. more (value, left)) past)))

  -- the items end where the lines end
  parse_list-ends :
      (fuel other indent : ℕ) (items : Items)
      → parse_list py (suc fuel) [] indent items ≡ parse_list py (suc other) [] indent items
  unfolding parse_block
  parse_list-ends fuel other indent items = refl

  -- Under an item `- key: value`, a line that is indented by one more than the dash is dropped,
  -- whatever it says: the document reads as the item alone does, with no error for the line.
  pub under_indented_line_dropped :
      (indent : ℕ) (item content : Text)
      → is_inline_map (strip item) ≡ true
      → parse_lines py ((indent, codes "- " ++ item) ∷ (indent + 1, content) ∷ [])
        ≡ parse_lines py ((indent, codes "- " ++ item) ∷ [])
  unfolding parse_lines deeper past_deeper closes
  under_indented_line_dropped indent item content inline =
      let deep : ltb indent (indent + 1) ≡ true = ground arith in
      let closed : ltb (indent + 1) (indent + 2) ≡ true = ground arith in
      let two =
        parse_block-alone 5 indent item ((indent + 1, content) ∷ []) inline
          (rw (deep, deeper) closed) (rw (deep, past_deeper)) in
      let one = parse_block-alone 2 indent item [] inline refl refl in
      let same =
        ap (λ (k : Value → Parsed). map_alone (indent + 2) (strip item) >>= k)
          (fun_ext λ value. parse_list-ends 6 3 indent (append_item nil value)) in
      ap (λ parsed. parsed >>= finish py) (two ∙ (same ∙ sym one))
