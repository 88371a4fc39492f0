-- ===== src/Util/MiniYaml/RoundTrip/Dumping.antt =====
-- util/miniyaml.py: the writer's text is its lines, each with its line break.
use mathlib.Core.List.{map-append}
use droid_os.Prelude.{
  ℕ, ◌+◌, ◌≡◌, refl, sym, ap, ◌∙◌, true, false, List, [], ◌∷◌, ◌++◌, if◌then◌else◌, is_nil, All,
  arith, map,
}
use droid_os.Util.MiniYaml.Text.{Text, codes, spaces}
use droid_os.Util.MiniYaml.Values.{
  Value, null, bool, int, float, str, list, dict, Items, nil, cons, Fields, end, field, Conversions,
}
use droid_os.Util.MiniYaml.Lines.{Line}
use droid_os.Util.MiniYaml.Dumper.{
  dump_items, dump, dump_fields, dump_scalar, written, without_newlines, is_filled,
}
use droid_os.Util.MiniYaml.RoundTrip.Texts.{unlines, unlines-append}
use droid_os.Util.MiniYaml.RoundTrip.Writable.{
  is_key, is_mapping, AreItems, no_more, item, IsWritable, scalar, sequence, mapping, AreWritable,
  last, next,
}
use droid_os.Util.MiniYaml.RoundTrip.Outline.{item_lines, raw, outline, inner_lines, entry_text}
use droid_os.Util.MiniYaml.RoundTrip.Entries.{
  IsScalar→unfilled, inner_lines-scalar, item_lines-IsClean, outline-IsClean,
}
use droid_os.Util.MiniYaml.RoundTrip.Breaks.{
  IsLine, All-IsLine, without_newlines-unlines, written-unlines,
}

-- the lines of one entry, as `dump_fields` writes them
abbrev entry_lines : Conversions → Text → Value → ℕ → List Text
entry_lines py key v indent =
    if is_filled v
    then (spaces indent ++ (key ++ codes ":")) ∷ without_newlines (dump py v (indent + 2)) ∷ []
    else (spaces indent ++ (key ++ (codes ": " ++ dump_scalar py v))) ∷ []

is_nil-entry_lines :
    (py : Conversions) (key : Text) (v : Value) (indent : ℕ) (others : List Text)
    → is_nil (entry_lines py key v indent ++ others) ≡ false
is_nil-entry_lines py key v indent others = ground arith

-- an entry's own line, and those of its block
abbrev entry_outline : Conversions → Text → Value → ℕ → List Line
entry_outline py key v indent = (indent, entry_text py key v) ∷ inner_lines py v (indent + 2)

-- The block of a mapping, without its last line break.
mapping-unlines :
    (py : Conversions) (key : Text) (v : Value) (rest : Fields) (indent : ℕ)
    → let fields = field key v rest in
      AreWritable py fields
      → unlines (dump_fields py fields indent) ≡ unlines (map raw (outline py fields indent))
      → without_newlines (dump py (dict fields) indent) ++ 10 ∷ []
        ≡ unlines (map raw (outline py fields indent))
unfolding dump
mapping-unlines py key v rest indent a ih =
    let fields = field key v rest in
    let clean = All-IsLine (outline py fields indent) (outline-IsClean py fields indent a) in
    ap (λ t. without_newlines t ++ 10 ∷ [])
      (written-unlines (codes "{}") indent (dump_fields py fields indent)
          (is_nil-entry_lines py key v indent (dump_fields py rest indent))
        ∙ ih)
    ∙ closed clean
  where
    closed :
        All IsLine (map raw (outline py (field key v rest) indent))
        → without_newlines (unlines (map raw (outline py (field key v rest) indent))) ++ 10 ∷ []
          ≡ unlines (map raw (outline py (field key v rest) indent))
    closed h = unfold outline in without_newlines-unlines _ _ (h.0) (h.1)

dump_items-cons :
    (py : Conversions) (v : Value) (items : Items) (indent : ℕ)
    → is_mapping v ≡ false
    → dump_items py (cons v items) indent
      ≡ raw (indent, codes "- " ++ dump_scalar py v) ∷ dump_items py items indent
unfolding dump is_mapping
dump_items-cons py (dict fields) items indent h = cc
dump_items-cons py null items indent h = refl
dump_items-cons py (bool b) items indent h = refl
dump_items-cons py (int n) items indent h = refl
dump_items-cons py (float x) items indent h = refl
dump_items-cons py (str s) items indent h = refl
dump_items-cons py (list inner) items indent h = refl

dump_items-raw :
    (py : Conversions) (items : Items) (indent : ℕ)
    → AreItems py items
    → dump_items py items indent ≡ map raw (item_lines py items indent)
unfolding dump item_lines
dump_items-raw py nil indent no_more = refl
dump_items-raw py (cons v items) indent (item s flat plain a) =
    dump_items-cons py v items indent flat
    ∙ ap (λ lines. raw (indent, codes "- " ++ dump_scalar py v) ∷ lines)
        (dump_items-raw py items indent a)

-- The block of a sequence, without its last line break.
sequence-unlines :
    (py : Conversions) (v : Value) (items : Items) (indent : ℕ)
    → AreItems py (cons v items)
    → without_newlines (dump py (list (cons v items)) indent) ++ 10 ∷ []
      ≡ unlines (map raw (item_lines py (cons v items) indent))
unfolding dump item_lines
sequence-unlines py v items indent a =
    let all = item_lines py (cons v items) indent in
    let clean = All-IsLine all (item_lines-IsClean py (cons v items) indent a) in
    ap (λ t. without_newlines t ++ 10 ∷ [])
      (ap (written (codes "[]") indent) (dump_items-raw py (cons v items) indent a)
        ∙ written-unlines (codes "[]") indent (map raw all) refl)
    ∙ without_newlines-unlines _ _ clean.0 clean.1

mutual
  unfolding dump inner_lines item_lines outline entry_text is_filled unlines

  dump_each-unlines :
      (py : Conversions) (fields : Fields) (indent : ℕ)
      → AreWritable py fields
      → unlines (dump_fields py fields indent) ≡ unlines (map raw (outline py fields indent))
  dump_each-unlines py fields indent last = refl
  dump_each-unlines py fields indent (next {key} {v} {fields = rest} named fresh w a) =
      let mine = entry_lines py key v indent in
      let outer = map raw (outline py rest indent) in
      unlines-append mine (dump_fields py rest indent)
      ∙ (ap (λ t. t ++ unlines (dump_fields py rest indent))
            (entry_lines-unlines py key v indent named w)
          ∙ (ap (λ t. unlines (map raw (entry_outline py key v indent)) ++ t)
                (dump_each-unlines py rest indent a)
              ∙ (sym (unlines-append (map raw (entry_outline py key v indent)) outer)
                  ∙ ap unlines (
                      sym (
                        map-append raw (entry_outline py key v indent) (outline py rest indent))))))

  entry_lines-unlines :
      (py : Conversions) (key : Text) (v : Value) (indent : ℕ)
      → is_key key ≡ true
      → IsWritable py v
      → unlines (entry_lines py key v indent) ≡ unlines (map raw (entry_outline py key v indent))
  entry_lines-unlines py key v indent named (scalar s) =
      rw (IsScalar→unfilled py v s, inner_lines-scalar py v (indent + 2) s)
  entry_lines-unlines py key v indent named (sequence {items = nil} a) = refl
  entry_lines-unlines py key v indent named (sequence {items = cons x items} a) =
      ap (λ t. (spaces indent ++ (key ++ codes ":")) ++ 10 ∷ t)
        (sequence-unlines py x items (indent + 2) a)
  entry_lines-unlines py key v indent named (mapping {fields = end} a) = refl
  entry_lines-unlines py key v indent named (mapping {fields = field k u rest} a) =
      ap (λ t. (spaces indent ++ (key ++ codes ":")) ++ 10 ∷ t)
        (mapping-unlines py k u rest (indent + 2) a
          (dump_each-unlines py (field k u rest) (indent + 2) a))

-- The text of a mapping with some entry is the outline's lines.
pub dump-unlines :
    (py : Conversions) (key : Text) (v : Value) (rest : Fields)
    → let fields = field key v rest in
      AreWritable py fields → dump py (dict fields) 0 ≡ unlines (map raw (outline py fields 0))
unfolding dump
dump-unlines py key v rest a =
    let fields = field key v rest in
    written-unlines (codes "{}") 0 (dump_fields py fields 0)
      (is_nil-entry_lines py key v 0 (dump_fields py rest 0))
    ∙ dump_each-unlines py fields 0 a
