-- ===== src/Util/MiniYaml/RoundTrip/Scalars.antt =====
-- util/miniyaml.py: a writable scalar is read back from what the writer writes.
use droid_os.Prelude.{
  ◌≡◌, refl, Bool, true, false, ◌&&◌, ◌||◌, [], ◌∷◌, ◌++◌, none, some, ◌==◌, is_nil, any, length,
  ap, subst, ◌∙◌, arith, leb,
}
use droid_os.Util.MiniYaml.Text.{
  Text, is_break, is_space, has, strip, strip_left, strip_right, codes, text_eq, first_char,
  without_first,
}
use droid_os.Util.MiniYaml.Values.{
  Value, null, bool, int, float, str, list, dict, nil, cons, end, field, Conversions,
}
use droid_os.Util.MiniYaml.Lines.{cut_comment, strip_comment, block_scalar_kind}
use droid_os.Util.MiniYaml.Scalars.{
  word_value, is_quoted, is_flow, inside, scalar, scalar_on, number_or_text,
}
use droid_os.Util.MiniYaml.Dumper.{needs_quotes, quoted_if_needed, container_text, dump_scalar}
use droid_os.Util.MiniYaml.RoundTrip.Texts.{strip_right-snoc, last_char-snoc, without_last-snoc}
use droid_os.Util.MiniYaml.RoundTrip.Writable.{is_noisy, IsBare, IsScalar}

-- `w` is a text on one line that holds no comment, and that reads as `v`.
pub record Reads (py : Conversions) (v : Value) (w : Text) : Type 0 where
  pub one_line : any is_break w ≡ false
  pub uncommented : strip_comment w ≡ w
  pub stripped : strip w ≡ w
  pub filled : is_nil w ≡ false
  pub no_header : block_scalar_kind w ≡ none
  pub reads : scalar py w ≡ some v

pub cut_comment-quiet :
    (fresh : Bool) (w : Text) → any is_noisy w ≡ false → cut_comment false false fresh w ≡ w
unfolding cut_comment is_noisy
cut_comment-quiet fresh [] h = refl
cut_comment-quiet fresh (c ∷ w) h = ground (arith, cut_comment-quiet (c == 32 || c == 9) w)

any_break-quiet : (w : Text) → any is_noisy w ≡ false → any is_break w ≡ false
unfolding is_noisy
any_break-quiet [] h = refl
any_break-quiet (c ∷ w) h = ground (arith, any_break-quiet w)

first_char-quiet :
    (w : Text) → any is_noisy w ≡ false → (first_char w == 39 || first_char w == 34) ≡ false
unfolding is_noisy first_char
first_char-quiet [] h = refl
first_char-quiet (c ∷ w) h = ground arith

first_char→unquoted :
    (w : Text) → (first_char w == 39 || first_char w == 34) ≡ false → is_quoted w ≡ false
unfolding is_quoted
first_char→unquoted w h = rw h (ground arith)

-- null, the Booleans and the empty containers
abbrev IsWord : Value → Type 0
IsWord null = Unit
IsWord (bool b) = Unit
IsWord (list nil) = Unit
IsWord (dict end) = Unit
IsWord _ = ⊥

module _ (py : Conversions) where
  -- the three ways of `_scalar`, by the token
  scalar-word :
      (text token : Text) (v : Value)
      → strip text ≡ token
      → word_value token ≡ some v
      → scalar py text ≡ some v
  unfolding scalar scalar_on
  scalar-word text token v e word =
      subst (λ t. word_value t ≡ some v → scalar py text ≡ some v) e (λ h. rw (h, scalar_on)) word

  scalar-quoted :
      (text token : Text)
      → strip text ≡ token
      → word_value token ≡ none
      → is_quoted token ≡ true
      → scalar py text ≡ some (str (inside token))
  unfolding scalar scalar_on
  scalar-quoted text token e word quoted =
      subst (λ t. word_value t ≡ none → is_quoted t ≡ true → scalar py text ≡ some (str (inside t)))
        e (λ h k. rw (h, k, scalar_on)) word quoted

  scalar-bare :
      (text token : Text)
      → strip text ≡ token
      → word_value token ≡ none
      → is_quoted token ≡ false
      → is_flow token ≡ false
      → scalar py text ≡ some (number_or_text py token)
  unfolding scalar scalar_on
  scalar-bare text token e word quoted flow =
      subst
        (λ t.
          word_value t ≡ none
          → is_quoted t ≡ false
          → is_flow t ≡ false
          → scalar py text ≡ some (number_or_text py t))
        e (λ h k l. rw (h, k, l, scalar_on)) word quoted flow

  bare-Reads : (v : Value) (w : Text) → IsBare w → number_or_text py w ≡ v → Reads py v w
  unfolding strip_comment
  bare-Reads v w b n = record {
    one_line = any_break-quiet w b.quiet;
    uncommented = cut_comment-quiet true w b.quiet;
    stripped = b.stripped;
    filled = b.filled;
    no_header = b.no_header;
    reads =
        scalar-bare w w b.stripped b.no_word (first_char→unquoted w (first_char-quiet w b.quiet))
          b.no_flow
        ∙ ap (λ x. some x) n;
  }

  -- inside double quotes nothing but their end is special
  cut_comment-quoted :
      (fresh : Bool) (s : Text)
      → has 34 s ≡ false
      → cut_comment false true fresh (s ++ 34 ∷ []) ≡ s ++ 34 ∷ []
  unfolding cut_comment has
  cut_comment-quoted fresh [] h = refl
  cut_comment-quoted fresh (c ∷ s) h = ground (arith, cut_comment-quoted (c == 32 || c == 9) s)

  any_break-snoc : (s : Text) → any is_break s ≡ false → any is_break (s ++ 34 ∷ []) ≡ false
  unfolding is_break
  any_break-snoc [] h = refl
  any_break-snoc (c ∷ s) h = ground (arith, any_break-snoc s)

  strip-quoted : (s : Text) → strip (34 ∷ (s ++ 34 ∷ [])) ≡ 34 ∷ (s ++ 34 ∷ [])
  unfolding strip strip_left is_space
  strip-quoted s = strip_right-snoc is_space (34 ∷ s) 34 refl

  -- a text in double quotes, by its token
  is_quoted-quoted : (s : Text) → is_quoted (34 ∷ (s ++ 34 ∷ [])) ≡ true
  unfolding is_quoted first_char
  is_quoted-quoted s = rw (last_char-snoc (34 ∷ s) 34) (long s)
    where
      long : (t : Text) → (leb 2 (length (34 ∷ (t ++ 34 ∷ []))) && true) ≡ true
      long [] = refl
      long (c ∷ t) = ground arith

  inside-quoted : (s : Text) → inside (34 ∷ (s ++ 34 ∷ [])) ≡ s
  unfolding inside without_first
  inside-quoted s = rw (without_last-snoc (34 ∷ s) 34)

  quoted-Reads :
      (s : Text)
      → has 34 s ≡ false
      → any is_break s ≡ false
      → Reads py (str s) (34 ∷ (s ++ 34 ∷ []))
  unfolding strip_comment cut_comment is_break block_scalar_kind first_char word_value text_eq
  quoted-Reads s h k = record {
    one_line = any_break-snoc s k;
    uncommented = ap (λ t. 34 ∷ t) (cut_comment-quoted false s h);
    stripped = strip-quoted s;
    filled = refl;
    no_header = rw (strip-quoted s);
    reads =
        scalar-quoted (34 ∷ (s ++ 34 ∷ [])) (34 ∷ (s ++ 34 ∷ [])) (strip-quoted s) refl
          (is_quoted-quoted s)
        ∙ ap (λ x. some (str x)) (inside-quoted s);
  }

  word-Reads :
      (v : Value) (w : Text)
      → any is_noisy w ≡ false
      → strip w ≡ w
      → is_nil w ≡ false
      → block_scalar_kind w ≡ none
      → word_value w ≡ some v
      → Reads py v w
  unfolding strip_comment
  word-Reads v w quiet stripped filled no_header word = record {
    one_line = any_break-quiet w quiet;
    uncommented = cut_comment-quiet true w quiet;
    stripped = stripped;
    filled = filled;
    no_header = no_header;
    reads = scalar-word w w v stripped word;
  }

  -- the words that the writer uses
  written_word-Reads : (v : Value) → IsWord v → Reads py v (dump_scalar py v)
  unfolding dump_scalar quoted_if_needed container_text needs_quotes is_noisy is_break strip
      strip_left strip_right is_space text_eq word_value block_scalar_kind first_char has
  written_word-Reads null h = word-Reads null (codes "null") refl refl refl refl refl
  written_word-Reads (bool true) h = word-Reads (bool true) (codes "true") refl refl refl refl refl
  written_word-Reads (bool false) h =
      word-Reads (bool false) (codes "false") refl refl refl refl refl
  written_word-Reads (list nil) h = word-Reads (list nil) (codes "[]") refl refl refl refl refl
  written_word-Reads (dict end) h = word-Reads (dict end) (codes "{}") refl refl refl refl refl
  written_word-Reads (int n) h = elim h [ ]
  written_word-Reads (float x) h = elim h [ ]
  written_word-Reads (str s) h = elim h [ ]
  written_word-Reads (list (cons v items)) h = elim h [ ]
  written_word-Reads (dict (field k v fields)) h = elim h [ ]

  pub dump_scalar-Reads : (v : Value) → IsScalar py v → Reads py v (dump_scalar py v)
  unfolding dump_scalar quoted_if_needed number_or_text
  dump_scalar-Reads v IsScalar.null = written_word-Reads null tt
  dump_scalar-Reads v (IsScalar.bool b) = written_word-Reads (bool b) tt
  dump_scalar-Reads v IsScalar.empty_list = written_word-Reads (list nil) tt
  dump_scalar-Reads v IsScalar.empty_dict = written_word-Reads (dict end) tt
  dump_scalar-Reads v (IsScalar.int n b r) =
      bare-Reads (int n) (py.str_of_int n) b (rw (r, number_or_text))
  dump_scalar-Reads v (IsScalar.float x b r q) =
      bare-Reads (float x) x b (rw (r, q, number_or_text))
  dump_scalar-Reads v (IsScalar.bare s e b r q) =
      rw e (bare-Reads (str s) s b (rw (r, q, number_or_text)))
  dump_scalar-Reads v (IsScalar.quoted s e h k) = rw e (quoted-Reads s h k)
