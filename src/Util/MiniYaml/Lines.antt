-- ===== src/Util/MiniYaml/Lines.antt =====
-- util/miniyaml.py: comments, indentation, and the lines that the parser reads.
use droid_os.Prelude.{
  ℕ, ◌-◌, Bool, true, false, not, ◌&&◌, ◌||◌, List, [], ◌∷◌, ◌++◌, Option, none, some, ◌==◌, ltb,
  if◌then◌else◌, is_nil, length,
}
use droid_os.Util.MiniYaml.Text.{
  Text, codes, starts_with, strip_left, strip, is_space, split_lines, first_char, without_first,
  has, join_with,
}

-- the quotes around a position: `in_single` and `in_double` after the character `c`
abbrev pub quote_single : ℕ → Bool → Bool → Bool
quote_single c single double = if c == 39 && not double then not single else single

abbrev pub quote_double : ℕ → Bool → Bool → Bool
quote_double c single double = if c == 34 && not single then not double else double

-- The loop of `_strip_comment`; `fresh` where the position is the first or follows a blank.
unfoldable pub cut_comment : Bool → Bool → Bool → Text → Text
cut_comment single double fresh [] = []
cut_comment single double fresh (c ∷ line) = elim (c == 35 && not single && not double && fresh) [
  | true ↦ []
  | false ↦
      c
      ∷ cut_comment (quote_single c single double) (quote_double c single double)
          (c == 32 || c == 9) line
]

unfoldable pub strip_comment : Text → Text
strip_comment = cut_comment false false true

unfoldable pub indent_of : Text → ℕ
indent_of line = length line - length (strip_left (λ c. c == 32) line)

-- an indent with the line's stripped content
abbrev pub Line : Type 0
Line = ℕ × Text

unfoldable pub is_skipped : Text → Bool
is_skipped line =
    is_nil (strip line)
    || (starts_with (codes "---") (strip_left is_space line)
        || starts_with (codes "...") (strip_left is_space line))

unfoldable pub clean_each : List Text → List Line
clean_each [] = []
clean_each (raw ∷ raws) =
    let line = strip_comment raw in
    let rest = clean_each raws in
    if is_skipped line then rest else (indent_of line, strip line) ∷ rest

unfoldable pub clean_lines : Text → List Line
clean_lines text = clean_each (split_lines text)

-- the lines that a block with parent indent `indent` takes, and those that it leaves
unfoldable pub deeper : ℕ → List Line → List Line
deeper indent [] = []
deeper indent (line ∷ lines) =
    let rest = deeper indent lines in if ltb indent line.0 then line ∷ rest else []

unfoldable pub past_deeper : ℕ → List Line → List Line
past_deeper indent [] = []
past_deeper indent (line ∷ lines) =
    let rest = past_deeper indent lines in if ltb indent line.0 then rest else line ∷ lines

pub data Style : Type 0 where
  literal folded : Style

-- the style of a block scalar's header, and whether its last line break is dropped
unfoldable pub block_scalar_kind : Text → Option (Style × Bool)
block_scalar_kind rest =
    let head = strip rest in
    let chomp_strip = has b'-' (without_first head) in
    if is_nil head
    then none
    else if first_char head == b'|'
    then some (literal, chomp_strip)
    else if first_char head == b'>'
    then some (folded, chomp_strip)
    else none

unfoldable pub contents : List Line → List Text
contents [] = []
contents (line ∷ lines) = line.1 ∷ contents lines

-- the text of a block scalar with the body `lines`
unfoldable pub block_text : Style → Bool → List Line → Text
block_text folded chomp_strip lines = join_with (codes " ") (contents lines)
block_text literal chomp_strip lines =
    let text = join_with (10 ∷ []) (contents lines) in
    if not chomp_strip && not (is_nil lines) then text ++ 10 ∷ [] else text
