-- ===== src/Util/MiniYaml/Dumper.antt =====
-- util/miniyaml.py: the writer.
use droid_os.Prelude.{
  ℕ, ◌+◌, Bool, true, false, not, ◌||◌, List, [], ◌∷◌, ◌++◌, ◌==◌, if◌then◌else◌, is_nil,
}
use droid_os.Util.MiniYaml.Text.{
  Text, codes, text_eq, is_space, has, strip, strip_left, strip_right, split_lines, join_with,
  spaces,
}
use droid_os.Util.MiniYaml.Values.{
  Value, null, bool, int, float, str, list, dict, Items, nil, cons, Fields, end, field, Conversions,
}

unfoldable pub needs_quotes : Text → Bool
needs_quotes s = is_nil s || (has b':' s || has b'#' s) || not (text_eq (strip s) s)

unfoldable pub quoted_if_needed : Text → Text
quoted_if_needed s = if needs_quotes s then 34 ∷ (s ++ 34 ∷ []) else s

-- `str(v)` of a list or a mapping
unfoldable pub container_text : Conversions → Value → Text
container_text py (list nil) = codes "[]"
container_text py (dict end) = codes "{}"
container_text py v = py.str_of_container v

unfoldable pub dump_scalar : Conversions → Value → Text
dump_scalar py null = codes "null"
dump_scalar py (bool b) = if b then codes "true" else codes "false"
dump_scalar py (int n) = py.str_of_int n
dump_scalar py (float x) = x
dump_scalar py (str s) = quoted_if_needed s
dump_scalar py (list items) = quoted_if_needed (container_text py (list items))
dump_scalar py (dict fields) = quoted_if_needed (container_text py (dict fields))

-- `isinstance(v, (dict, list)) and v`
unfoldable pub is_filled : Value → Bool
is_filled (list (cons v items)) = true
is_filled (dict (field key v fields)) = true
is_filled _ = false

abbrev is_newline : ℕ → Bool
is_newline c = c == 10

-- `text.rstrip("\n")`
unfoldable pub without_newlines : Text → Text
without_newlines = strip_right is_newline

-- A mapping as an item: its first line after the dash, then the others.
unfoldable pub dashed : Text → List Text → List Text
dashed pad [] = []
dashed pad (first ∷ others) = (pad ++ (codes "- " ++ strip_left is_space first)) ∷ others

-- The lines of a block joined, or how an empty block is written.
unfoldable pub written : Text → ℕ → List Text → Text
written empty indent [] = spaces indent ++ (empty ++ 10 ∷ [])
written empty indent (line ∷ lines) = join_with (10 ∷ []) (line ∷ lines) ++ 10 ∷ []

module _ (py : Conversions) where
  unfoldable mutual
    pub dump : Value → ℕ → Text
    dump (list items) indent = written (codes "[]") indent (dump_items items indent)
    dump (dict fields) indent = written (codes "{}") indent (dump_fields fields indent)
    dump null indent = spaces indent ++ (dump_scalar py null ++ 10 ∷ [])
    dump (bool b) indent = spaces indent ++ (dump_scalar py (bool b) ++ 10 ∷ [])
    dump (int n) indent = spaces indent ++ (dump_scalar py (int n) ++ 10 ∷ [])
    dump (float x) indent = spaces indent ++ (dump_scalar py (float x) ++ 10 ∷ [])
    dump (str s) indent = spaces indent ++ (dump_scalar py (str s) ++ 10 ∷ [])

    pub dump_fields : Fields → ℕ → List Text
    dump_fields end indent = []
    dump_fields (field key v fields) indent =
        (if is_filled v
          then (spaces indent ++ (key ++ codes ":")) ∷ without_newlines (dump v (indent + 2)) ∷ []
          else (spaces indent ++ (key ++ (codes ": " ++ dump_scalar py v))) ∷ [])
        ++ dump_fields fields indent

    -- For a mapping, `written` is its text by `dump`.
    pub dump_items : Items → ℕ → List Text
    dump_items nil indent = []
    dump_items (cons (dict fields) items) indent =
        let text = written (codes "{}") (indent + 2) (dump_fields fields (indent + 2)) in
        dashed (spaces indent) (split_lines (without_newlines text)) ++ dump_items items indent
    dump_items (cons v items) indent =
        (spaces indent ++ (codes "- " ++ dump_scalar py v)) ∷ dump_items items indent
