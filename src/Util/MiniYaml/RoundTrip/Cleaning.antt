-- ===== src/Util/MiniYaml/RoundTrip/Cleaning.antt =====
-- util/miniyaml.py: the reader finds the lines that the writer wrote.
use mathlib.Core.List.{append_assoc, append-nil}
use droid_os.Prelude.{
  ℕ, zero, suc, ◌+◌, ◌≡◌, refl, ap, ◌∙◌, true, false, List, [], ◌∷◌, ◌++◌, ◌==◌, any, All, arith,
  map, length, Bool-cases, inl, inr,
}
use droid_os.Util.MiniYaml.Text.{
  Text, is_break, is_space, strip, strip_left, spaces, lines_from, split_lines,
}
use droid_os.Util.MiniYaml.Lines.{
  Line, cut_comment, strip_comment, is_skipped, indent_of, clean_each, clean_lines,
}
use droid_os.Util.MiniYaml.RoundTrip.Texts.{eq_of_test, unlines, strip-spaces}
use droid_os.Util.MiniYaml.RoundTrip.Outline.{raw, is_solid, IsClean}

lines_from-append :
    (line start t : Text)
    → any is_break line ≡ false
    → lines_from false start (line ++ 10 ∷ t) ≡ (start ++ line) ∷ lines_from false [] t
unfolding lines_from is_break
lines_from-append [] start t h = rw append-nil refl
lines_from-append (c ∷ line) start t h =
    ground (arith, lines_from-append line (start ++ c ∷ []) t, append_assoc start (c ∷ []) line)

split_lines-unlines :
    (lines : List Text)
    → All (λ line. any is_break line ≡ false) lines
    → split_lines (unlines lines) ≡ lines
unfolding split_lines unlines lines_from
split_lines-unlines [] h = refl
split_lines-unlines (line ∷ lines) h =
    lines_from-append line [] (unlines lines) h.0
    ∙ ap (λ rest. line ∷ rest) (split_lines-unlines lines h.1)

any_break-spaces : (n : ℕ) (t : Text) → any is_break (spaces n ++ t) ≡ any is_break t
unfolding spaces is_break
any_break-spaces zero t = refl
any_break-spaces (suc n) t = any_break-spaces n t

strip_comment-spaces :
    (n : ℕ) (t : Text) → strip_comment (spaces n ++ t) ≡ spaces n ++ strip_comment t
unfolding spaces strip_comment cut_comment
strip_comment-spaces zero t = refl
strip_comment-spaces (suc n) t = ap (λ s. 32 ∷ s) (strip_comment-spaces n t)

space_32 : is_space 32 ≡ true
unfolding is_space
space_32 = refl

not_blank : (c : ℕ) → is_space c ≡ false → (c == 32) ≡ false
not_blank c h = elim (Bool-cases (c == 32)) [
  | inl e ↦ let at : c ≡ 32 = eq_of_test c 32 e in cc (rw at at h, space_32)
  | inr e ↦ e
]

solid→start : (c : ℕ) (t : Text) → is_solid (c ∷ t) ≡ true → is_space c ≡ false
unfolding is_solid
solid→start c t h = ground arith

strip_left-start : (c : ℕ) (t : Text) → is_space c ≡ false → strip_left is_space (c ∷ t) ≡ c ∷ t
unfolding strip_left
strip_left-start c t h = rw h

strip_left-spaces : (n : ℕ) (t : Text) → is_solid t ≡ true → strip_left is_space (spaces n ++ t) ≡ t
unfolding spaces strip_left is_space
strip_left-spaces zero [] h = refl
strip_left-spaces zero (c ∷ t) h = strip_left-start c t (solid→start c t h)
strip_left-spaces (suc n) t h = strip_left-spaces n t h

strip_blanks-spaces :
    (n : ℕ) (t : Text) → is_solid t ≡ true → strip_left (λ c. c == 32) (spaces n ++ t) ≡ t
unfolding spaces strip_left
strip_blanks-spaces zero [] h = refl
strip_blanks-spaces zero (c ∷ t) h = rw (not_blank c (solid→start c t h))
strip_blanks-spaces (suc n) t h = strip_blanks-spaces n t h

length-spaces : (n : ℕ) (t : Text) → length (spaces n ++ t) ≡ n + length t
unfolding spaces
length-spaces zero t = omega arith
length-spaces (suc n) t = omega (arith, length-spaces n t)

indent_of-spaces : (n : ℕ) (t : Text) → is_solid t ≡ true → indent_of (spaces n ++ t) ≡ n
unfolding indent_of
indent_of-spaces n t h = rw (strip_blanks-spaces n t h) (omega (arith, length-spaces n t))

is_skipped-spaces :
    (n : ℕ) (t : Text) → is_solid t ≡ true → strip t ≡ t → is_skipped (spaces n ++ t) ≡ false
unfolding is_skipped is_solid
is_skipped-spaces n [] h e = cc
is_skipped-spaces n (c ∷ t) h e =
    rw (strip-spaces n (c ∷ t), e, strip_left-spaces n (c ∷ t) h) (ground arith)

clean_each-raw : (lines : List Line) → All IsClean lines → clean_each (map raw lines) ≡ lines
unfolding clean_each
clean_each-raw [] h = refl
clean_each-raw ((n, t) ∷ lines) h =
    let clean = h.0 in
    let kept = strip_comment-spaces n t ∙ ap (λ s. spaces n ++ s) clean.uncommented in
    rw (
      kept,
      is_skipped-spaces n t clean.solid clean.stripped,
      indent_of-spaces n t clean.solid,
      strip-spaces n t,
      clean.stripped,
      clean_each-raw lines h.1,
    )

All-one_line :
    (lines : List Line)
    → All IsClean lines
    → All (λ line. any is_break line ≡ false) (map raw lines)
All-one_line [] h = tt
All-one_line ((n, t) ∷ lines) h = (any_break-spaces n t ∙ (h.0).one_line, All-one_line lines h.1)

-- Clean lines come back from the file as they were.
pub clean_lines-raw :
    (lines : List Line) → All IsClean lines → clean_lines (unlines (map raw lines)) ≡ lines
unfolding clean_lines
clean_lines-raw lines h =
    ap clean_each (split_lines-unlines (map raw lines) (All-one_line lines h))
    ∙ clean_each-raw lines h
