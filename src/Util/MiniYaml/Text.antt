-- ===== src/Util/MiniYaml/Text.antt =====
-- util/miniyaml.py: the methods of Python's `str` that the module calls, on lists of code points.
use Prim.Native.Char.{code}
use Prim.Native.String.{String}
use droid_os.Prelude.{
  ℕ, zero, suc, Bool, true, false, ◌&&◌, ◌||◌, List, [], ◌∷◌, ◌++◌, ◌==◌, leb, if◌then◌else◌,
  is_nil, any,
}

abbrev pub Text : Type 0
Text = List ℕ

-- the code points of a literal of the source
abbrev pub codes : String → Text
codes String.[] = []
codes (String.◌∷◌ c s) = code c ∷ codes s

abbrev within : ℕ → ℕ → ℕ → Bool
within lo hi c = leb lo c && leb c hi

-- where `str.splitlines` ends a line
unfoldable pub is_break : ℕ → Bool
is_break c = within 10 13 c || within 28 30 c || c == 133 || within 8232 8233 c

-- `str.isspace` of one character
unfoldable pub is_space : ℕ → Bool
is_space c =
    within 9 13 c
    || within 28 32 c
    || c == 133
    || c == 160
    || c == 5760
    || within 8192 8202 c
    || within 8232 8233 c
    || c == 8239
    || c == 8287
    || c == 12288

-- `a == b` on texts
unfoldable pub text_eq : Text → Text → Bool
text_eq [] [] = true
text_eq [] (d ∷ t) = false
text_eq (c ∷ s) [] = false
text_eq (c ∷ s) (d ∷ t) = c == d && text_eq s t

-- `c in text`
unfoldable pub has : ℕ → Text → Bool
has c = any (λ d. d == c)

-- `text.startswith(prefix)`
unfoldable pub starts_with : Text → Text → Bool
starts_with [] text = true
starts_with (c ∷ prefix) [] = false
starts_with (c ∷ prefix) (d ∷ text) = d == c && starts_with prefix text

-- `text.lstrip(chars)` and `text.rstrip(chars)`, for the characters that `p` accepts
unfoldable pub strip_left : (ℕ → Bool) → Text → Text
strip_left p [] = []
strip_left p (c ∷ text) = let shorter = strip_left p text in if p c then shorter else c ∷ text

unfoldable pub strip_right : (ℕ → Bool) → Text → Text
strip_right p [] = []
strip_right p (c ∷ text) =
    let rest = strip_right p text in if p c && is_nil rest then [] else c ∷ rest

-- `text.strip()`
unfoldable pub strip : Text → Text
strip text = strip_right is_space (strip_left is_space text)

-- `text.partition(c)`: what stands before the first `c`, and what stands after it
unfoldable pub before : ℕ → Text → Text
before c [] = []
before c (d ∷ text) = let deeper = before c text in if d == c then [] else d ∷ deeper

unfoldable pub after : ℕ → Text → Text
after c [] = []
after c (d ∷ text) = let deeper = after c text in if d == c then text else deeper

-- `text.splitlines()`, where the line begun so far is `line`; "\r\n" ends one line
unfoldable pub lines_from : Bool → Text → Text → List Text
lines_from after_return line [] = if is_nil line then [] else line ∷ []
lines_from after_return line (c ∷ text) = elim (after_return && c == 10) [
  | true ↦ lines_from false line text
  | false ↦ elim (is_break c) [
    | true ↦ line ∷ lines_from (c == 13) [] text
    | false ↦ lines_from false (line ++ c ∷ []) text
  ]
]

unfoldable pub split_lines : Text → List Text
split_lines = lines_from false []

-- `sep.join(parts)`
unfoldable pub join_with : Text → List Text → Text
join_with sep [] = []
join_with sep (part ∷ []) = part
join_with sep (part ∷ next ∷ parts) = part ++ (sep ++ join_with sep (next ∷ parts))

-- `text[0]` and `text[-1]` of a text with at least one character
unfoldable pub first_char : Text → ℕ
first_char [] = 0
first_char (c ∷ text) = c

unfoldable pub last_char : Text → ℕ
last_char [] = 0
last_char (c ∷ []) = c
last_char (c ∷ d ∷ text) = last_char (d ∷ text)

-- `text[1:]` and `text[:-1]`
unfoldable pub without_first : Text → Text
without_first [] = []
without_first (c ∷ text) = text

unfoldable pub without_last : Text → Text
without_last [] = []
without_last (c ∷ []) = []
without_last (c ∷ d ∷ text) = c ∷ without_last (d ∷ text)

-- `" " * n`
unfoldable pub spaces : ℕ → Text
spaces zero = []
spaces (suc n) = 32 ∷ spaces n
