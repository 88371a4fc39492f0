-- ===== src/Util/MiniYaml/RoundTrip/Outline.antt =====
-- util/miniyaml.py: the lines that the writer writes for nested mappings, with their indents.
use droid_os.Prelude.{
  ℕ, ◌+◌, ◌≡◌, refl, sym, ap, ◌∙◌, Bool, true, false, not, ◌&&◌, ◌||◌, List, [], ◌∷◌, ◌++◌, ◌==◌,
  if◌then◌else◌, is_nil, any, arith,
}
use droid_os.Util.MiniYaml.Text.{
  Text, is_break, is_space, strip, strip_left, strip_right, codes, spaces, starts_with,
}
use droid_os.Util.MiniYaml.Values.{
  Value, null, bool, int, float, str, list, dict, Items, nil, cons, Fields, end, field, Conversions,
}
use droid_os.Util.MiniYaml.Lines.{Line, cut_comment, strip_comment}
use droid_os.Util.MiniYaml.Dumper.{dump_scalar, is_filled}
use droid_os.Util.MiniYaml.RoundTrip.Texts.{strip_right-append}
use droid_os.Util.MiniYaml.RoundTrip.Writable.{is_special, is_key}

-- the text of an entry's own line
unfoldable pub entry_text : Conversions → Text → Value → Text
entry_text py key v =
    if is_filled v then key ++ codes ":" else key ++ (codes ": " ++ dump_scalar py v)

unfoldable pub item_lines : Conversions → Items → ℕ → List Line
item_lines py nil indent = []
item_lines py (cons v items) indent =
    (indent, codes "- " ++ dump_scalar py v) ∷ item_lines py items indent

unfoldable mutual
  pub inner_lines : Conversions → Value → ℕ → List Line
  inner_lines py (dict fields) indent = outline py fields indent
  inner_lines py null indent = []
  inner_lines py (bool b) indent = []
  inner_lines py (int n) indent = []
  inner_lines py (float x) indent = []
  inner_lines py (str s) indent = []
  inner_lines py (list items) indent = item_lines py items indent

  pub outline : Conversions → Fields → ℕ → List Line
  outline py end indent = []
  outline py (field key v fields) indent =
      (indent, entry_text py key v) ∷ (inner_lines py v (indent + 2) ++ outline py fields indent)

-- the line as it stands in the file
abbrev pub raw : Line → Text
raw line = spaces line.0 ++ line.1

-- The first character is no blank, and no marker of a document stands there.
unfoldable pub is_solid : Text → Bool
is_solid [] = false
is_solid (c ∷ text) =
    not (is_space c)
    && not (starts_with (codes "---") (c ∷ text) || starts_with (codes "...") (c ∷ text))

-- The line is a line of the file and comes through `_clean_lines` unchanged.
pub record IsClean (line : Line) : Type 0 where
  pub one_line : any is_break line.1 ≡ false
  pub uncommented : strip_comment line.1 ≡ line.1
  pub stripped : strip line.1 ≡ line.1
  pub solid : is_solid line.1 ≡ true

pub is_key→special : (key : Text) → is_key key ≡ true → any is_special key ≡ false
unfolding is_key
is_key→special [] h = refl
is_key→special (c ∷ key) h = ground arith

pub is_key→solid : (key t : Text) → is_key key ≡ true → is_solid (key ++ t) ≡ true
unfolding is_key is_solid is_special starts_with
is_key→solid [] t h = cc
is_key→solid (c ∷ key) t h = ground arith

pub cut_comment-key :
    (fresh : Bool) (key t : Text)
    → any is_special key ≡ false
    → cut_comment false false fresh (key ++ 58 ∷ t) ≡ key ++ 58 ∷ cut_comment false false false t
unfolding cut_comment is_special
cut_comment-key fresh [] t h = ground arith
cut_comment-key fresh (c ∷ key) t h = ground (arith, cut_comment-key (c == 32 || c == 9) key t)

break→space : (c : ℕ) → is_space c ≡ false → is_break c ≡ false
unfolding is_break is_space
break→space c h = ground arith

pub any_break-key :
    (key t : Text) → any is_special key ≡ false → any is_break (key ++ t) ≡ any is_break t
unfolding is_special
any_break-key [] t h = refl
any_break-key (c ∷ key) t h = ground (arith, any_break-key key t, break→space c)

strip_right_idem : (p : ℕ → Bool) (t : Text) → strip_right p (strip_right p t) ≡ strip_right p t
unfolding strip_right
strip_right_idem p [] = refl
strip_right_idem p (c ∷ t) = ground (arith, strip_right_idem p t)

pub stripped→right : (w : Text) → strip w ≡ w → strip_right is_space w ≡ w
unfolding strip
stripped→right w h =
    ap (strip_right is_space) (sym h) ∙ (strip_right_idem is_space (strip_left is_space w) ∙ h)

pub strip-solid : (t : Text) → is_solid t ≡ true → strip t ≡ strip_right is_space t
unfolding strip strip_left is_solid
strip-solid [] h = refl
strip-solid (c ∷ t) h = let first : is_space c ≡ false = ground arith in rw (first, strip_left)

pub strip_right-after_key :
    (key t : Text)
    → is_nil (strip_right is_space t) ≡ false
    → strip_right is_space t ≡ t
    → strip_right is_space (key ++ t) ≡ key ++ t
strip_right-after_key key t filled h =
    strip_right-append is_space key t filled ∙ ap (λ s. key ++ s) h

-- what follows the colon keeps the last character
pub strip_right-value :
    (w : Text)
    → is_nil w ≡ false
    → strip_right is_space w ≡ w
    → strip_right is_space (58 ∷ 32 ∷ w) ≡ 58 ∷ 32 ∷ w
strip_right-value w filled h =
    strip_right-append is_space (58 ∷ 32 ∷ []) w (rw h filled) ∙ ap (λ t. 58 ∷ 32 ∷ t) h
