-- ===== src/Util/MiniYaml/RoundTrip/Texts.antt =====
-- util/miniyaml.py: laws of the string methods.
use droid_os.Prelude.{
  ◌==◌, ℕ, zero, suc, ◌≡◌, refl, sym, Bool, true, false, List, [], ◌∷◌, ◌++◌, is_nil, any, ap, ◌∙◌,
  arith,
}
use mathlib.Core.List.{append_assoc}
use droid_os.Util.MiniYaml.Text.{
  Text, is_space, has, strip_left, strip_right, strip, before, after, join_with, spaces, text_eq,
  last_char, without_last,
}

pub eq_of_test : (c d : ℕ) → (c == d) ≡ true → c ≡ d
eq_of_test c d h = ground arith

pub strip_right-append :
    (p : ℕ → Bool) (s t : Text)
    → is_nil (strip_right p t) ≡ false
    → strip_right p (s ++ t) ≡ s ++ strip_right p t
unfolding strip_right
strip_right-append p [] t h = refl
strip_right-append p (c ∷ s) t h =
    ground (arith, strip_right-append p s t h, is_nil_append s (strip_right p t))
  where
    is_nil_append : (a b : Text) → is_nil b ≡ false → is_nil (a ++ b) ≡ false
    is_nil_append [] b k = k
    is_nil_append (d ∷ a) b k = refl

-- a text whose last character is kept is kept
pub strip_right-snoc :
    (p : ℕ → Bool) (s : Text) (c : ℕ) → p c ≡ false → strip_right p (s ++ c ∷ []) ≡ s ++ c ∷ []
unfolding strip_right
strip_right-snoc p s c h =
    let kept : strip_right p (c ∷ []) ≡ c ∷ [] = ground arith in
    strip_right-append p s (c ∷ []) (rw kept) ∙ ap (λ t. s ++ t) kept

-- a text with no character that `p` accepts is kept
pub strip_right_self : (p : ℕ → Bool) (s : Text) → any p s ≡ false → strip_right p s ≡ s
unfolding strip_right
strip_right_self p [] h = refl
strip_right_self p (c ∷ s) h = ground (arith, strip_right_self p s)

-- what follows is dropped where `p` accepts it
pub strip_right-ends :
    (p : ℕ → Bool) (s : Text) (c : ℕ)
    → any p s ≡ false
    → p c ≡ true
    → strip_right p (s ++ c ∷ []) ≡ s
unfolding strip_right
strip_right-ends p [] c h k = ground arith
strip_right-ends p (d ∷ s) c h k = ground (arith, strip_right-ends p s c)

pub strip_self : (s : Text) → any is_space s ≡ false → strip s ≡ s
unfolding strip strip_left
strip_self [] h = strip_right_self is_space [] h
strip_self (c ∷ s) h =
    let first : is_space c ≡ false = ground arith in rw first (strip_right_self is_space (c ∷ s) h)

pub strip-blank : (s : Text) → strip (32 ∷ s) ≡ strip s
unfolding strip strip_left is_space
strip-blank s = refl

pub strip-spaces : (n : ℕ) (s : Text) → strip (spaces n ++ s) ≡ strip s
unfolding spaces
strip-spaces zero s = refl
strip-spaces (suc n) s = strip-blank (spaces n ++ s) ∙ strip-spaces n s

pub before-append : (c : ℕ) (s t : Text) → has c s ≡ false → before c (s ++ c ∷ t) ≡ s
unfolding before has
before-append c [] t h = ground arith
before-append c (d ∷ s) t h = ground (arith, before-append c s t)

pub after-append : (c : ℕ) (s t : Text) → has c s ≡ false → after c (s ++ c ∷ t) ≡ t
unfolding after has
after-append c [] t h = ground arith
after-append c (d ∷ s) t h = ground (arith, after-append c s t)

pub has-append : (c : ℕ) (s t : Text) → has c (s ++ c ∷ t) ≡ true
unfolding has
has-append c [] t = ground arith
has-append c (d ∷ s) t = ground (arith, has-append c s t)

pub text_eq_refl : (s : Text) → text_eq s s ≡ true
unfolding text_eq
text_eq_refl [] = refl
text_eq_refl (c ∷ s) = ground (arith, text_eq_refl s)

pub text_eq→eq : (s t : Text) → text_eq s t ≡ true → s ≡ t
unfolding text_eq
text_eq→eq [] [] h = refl
text_eq→eq [] (d ∷ t) h = cc
text_eq→eq (c ∷ s) [] h = cc
text_eq→eq (c ∷ s) (d ∷ t) h = ground (arith, text_eq→eq s t)

pub last_char-snoc : (s : Text) (c : ℕ) → last_char (s ++ c ∷ []) ≡ c
unfolding last_char
last_char-snoc [] c = refl
last_char-snoc (d ∷ []) c = refl
last_char-snoc (d ∷ e ∷ s) c = last_char-snoc (e ∷ s) c

pub without_last-snoc : (s : Text) (c : ℕ) → without_last (s ++ c ∷ []) ≡ s
unfolding without_last
without_last-snoc [] c = refl
without_last-snoc (d ∷ []) c = refl
without_last-snoc (d ∷ e ∷ s) c = ap (λ t. d ∷ t) (without_last-snoc (e ∷ s) c)

-- each line with its line break
unfoldable pub unlines : List Text → Text
unlines [] = []
unlines (line ∷ lines) = line ++ 10 ∷ unlines lines

pub join-unlines :
    (line : Text) (lines : List Text)
    → join_with (10 ∷ []) (line ∷ lines) ++ 10 ∷ [] ≡ unlines (line ∷ lines)
unfolding join_with unlines
join-unlines line [] = refl
join-unlines line (other ∷ lines) =
    append_assoc line (10 ∷ join_with (10 ∷ []) (other ∷ lines)) (10 ∷ [])
    ∙ ap (λ t. line ++ 10 ∷ t) (join-unlines other lines)

pub unlines-append :
    (lines others : List Text) → unlines (lines ++ others) ≡ unlines lines ++ unlines others
unfolding unlines
unlines-append [] others = refl
unlines-append (line ∷ lines) others =
    ap (λ t. line ++ 10 ∷ t) (unlines-append lines others)
    ∙ sym (append_assoc line (10 ∷ unlines lines) (unlines others))
