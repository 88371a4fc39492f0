-- ===== src/Util/MiniYaml/RoundTrip/Breaks.antt =====
-- util/miniyaml.py: the line breaks that the writer sets between lines and takes off a block's end.
use mathlib.Core.List.{append_assoc}
use droid_os.Prelude.{
  ℕ, zero, suc, ◌≡◌, refl, ap, ◌∙◌, Bool, true, false, List, [], ◌∷◌, ◌++◌, ◌==◌, if◌then◌else◌,
  is_nil, any, All, arith, map, inl, inr, Bool-cases,
}
use droid_os.Util.MiniYaml.Text.{Text, is_break, strip_right, spaces}
use droid_os.Util.MiniYaml.Lines.{Line}
use droid_os.Util.MiniYaml.Dumper.{written, without_newlines}
use droid_os.Util.MiniYaml.RoundTrip.Texts.{
  eq_of_test, unlines, join-unlines, strip_right-append, strip_right-ends,
}
use droid_os.Util.MiniYaml.RoundTrip.Outline.{raw, is_solid, IsClean}

abbrev pub newline : ℕ → Bool
newline c = c == 10

-- a line of the file: some text, and no line break in it
abbrev pub IsLine : Text → Type 0
IsLine line = (is_nil line ≡ false) × (any newline line ≡ false)

break_10 : is_break 10 ≡ true
unfolding is_break
break_10 = refl

not_newline : (c : ℕ) → is_break c ≡ false → newline c ≡ false
not_newline c h = elim (Bool-cases (newline c)) [
  | inl e ↦ let at : c ≡ 10 = eq_of_test c 10 e in cc (rw at at h, break_10)
  | inr e ↦ e
]

one_line→no_newline : (w : Text) → any is_break w ≡ false → any newline w ≡ false
one_line→no_newline [] h = refl
one_line→no_newline (c ∷ w) h = ground (arith, one_line→no_newline w, not_newline c)

raw-IsLine : (n : ℕ) (t : Text) → IsClean (n, t) → IsLine (raw (n, t))
unfolding spaces is_solid
raw-IsLine zero [] h = cc (h.solid)
raw-IsLine zero (c ∷ t) h = (refl, one_line→no_newline (c ∷ t) h.one_line)
raw-IsLine (suc n) t h =
    let rest = raw-IsLine n t (record {
      one_line = h.one_line;
      uncommented = h.uncommented;
      stripped = h.stripped;
      solid = h.solid;
    }) in
    (refl, rest.1)

pub All-IsLine : (lines : List Line) → All IsClean lines → All IsLine (map raw lines)
All-IsLine [] h = tt
All-IsLine ((n, t) ∷ lines) h = (raw-IsLine n t h.0, All-IsLine lines h.1)

without_newlines-filled :
    (line : Text) (rest : Text) → IsLine line → is_nil (without_newlines (line ++ rest)) ≡ false
unfolding without_newlines strip_right
without_newlines-filled [] rest h = cc (h.0)
without_newlines-filled (c ∷ line) rest h =
    let first : newline c ≡ false = ground arith in rw first refl

-- Only the last line break goes.
pub without_newlines-unlines :
    (line : Text) (lines : List Text)
    → IsLine line
    → All IsLine lines
    → without_newlines (unlines (line ∷ lines)) ++ 10 ∷ [] ≡ unlines (line ∷ lines)
unfolding unlines without_newlines strip_right
without_newlines-unlines line [] h k =
    ap (λ t. t ++ 10 ∷ []) (strip_right-ends newline line 10 h.1 refl)
without_newlines-unlines line (other ∷ lines) h k =
    let rest = unlines (other ∷ lines) in
    let filled = without_newlines-filled other (10 ∷ unlines lines) k.0 in
    let kept : strip_right newline (10 ∷ rest) ≡ 10 ∷ strip_right newline rest =
      ap (λ (b : Bool). if b then [] else 10 ∷ strip_right newline rest) filled in
    ap (λ t. t ++ 10 ∷ [])
      (strip_right-append newline line (10 ∷ rest) (rw kept) ∙ ap (λ t. line ++ t) kept)
    ∙ (append_assoc line (10 ∷ strip_right newline rest) (10 ∷ [])
        ∙ ap (λ t. line ++ 10 ∷ t) (without_newlines-unlines other lines k.0 k.1))

pub written-unlines :
    (empty : Text) (indent : ℕ) (lines : List Text)
    → is_nil lines ≡ false
    → written empty indent lines ≡ unlines lines
unfolding written
written-unlines empty indent [] h = cc
written-unlines empty indent (line ∷ lines) h = join-unlines line lines
