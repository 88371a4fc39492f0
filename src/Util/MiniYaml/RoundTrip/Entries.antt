-- ===== src/Util/MiniYaml/RoundTrip/Entries.antt =====
-- util/miniyaml.py: the lines of writable mappings come through `_clean_lines` unchanged.
use droid_os.Prelude.{
  ℕ, ◌+◌, ◌≡◌, refl, sym, ap, ◌∙◌, subst, true, false, [], ◌∷◌, ◌++◌, All, All-append,
}
use droid_os.Util.MiniYaml.Text.{Text, is_break, is_space, codes, starts_with}
use droid_os.Util.MiniYaml.Values.{
  Value, list, dict, Items, nil, cons, Fields, end, field, Conversions,
}
use droid_os.Util.MiniYaml.Lines.{cut_comment, strip_comment}
use droid_os.Util.MiniYaml.Dumper.{dump_scalar, is_filled}
use droid_os.Util.MiniYaml.RoundTrip.Texts.{strip_right-append, strip_right-snoc}
use droid_os.Util.MiniYaml.RoundTrip.Writable.{
  is_key, IsScalar, AreItems, no_more, item, IsWritable, scalar, sequence, mapping, AreWritable,
  last, next,
}
use droid_os.Util.MiniYaml.RoundTrip.Scalars.{Reads, dump_scalar-Reads}
use droid_os.Util.MiniYaml.RoundTrip.Outline.{
  entry_text, item_lines, inner_lines, outline, is_solid, IsClean, is_key→special, is_key→solid,
  cut_comment-key, any_break-key, strip_right-after_key, strip_right-value, stripped→right,
  strip-solid,
}

module _ (py : Conversions) (indent : ℕ) (key : Text) (named : is_key key ≡ true) where
  opened-IsClean : IsClean (indent, key ++ 58 ∷ [])
  unfolding strip_comment cut_comment is_break
  opened-IsClean =
      let special = is_key→special key named in
      let solid = is_key→solid key (58 ∷ []) named in
      record {
        one_line = any_break-key key (58 ∷ []) special;
        uncommented = cut_comment-key true key [] special;
        stripped = strip-solid (key ++ 58 ∷ []) solid ∙ strip_right-snoc is_space key 58 not_space;
        solid = solid;
      }
    where
      not_space : is_space 58 ≡ false
      not_space = unfold is_space in refl

  valued-IsClean : (v : Value) (w : Text) → Reads py v w → IsClean (indent, key ++ 58 ∷ 32 ∷ w)
  unfolding strip_comment cut_comment is_break
  valued-IsClean v w r =
      let special = is_key→special key named in
      let solid = is_key→solid key (58 ∷ 32 ∷ w) named in
      let tail = strip_right-value w r.filled (stripped→right w r.stripped) in
      record {
        one_line = any_break-key key (58 ∷ 32 ∷ w) special ∙ r.one_line;
        uncommented =
            cut_comment-key true key (32 ∷ w) special ∙ ap (λ t. key ++ 58 ∷ 32 ∷ t) r.uncommented;
        stripped =
            strip-solid (key ++ 58 ∷ 32 ∷ w) solid
            ∙ strip_right-after_key key (58 ∷ 32 ∷ w) (rw tail) tail;
        solid = solid;
      }

  pub entry_text-opened : (v : Value) → is_filled v ≡ true → entry_text py key v ≡ key ++ 58 ∷ []
  unfolding entry_text
  entry_text-opened v h = rw h

  pub entry_text-valued :
      (v : Value) → is_filled v ≡ false → entry_text py key v ≡ key ++ 58 ∷ 32 ∷ dump_scalar py v
  unfolding entry_text
  entry_text-valued v h = rw h

pub IsScalar→unfilled : (py : Conversions) (v : Value) → IsScalar py v → is_filled v ≡ false
unfolding is_filled
IsScalar→unfilled py v IsScalar.null = refl
IsScalar→unfilled py v (IsScalar.bool b) = refl
IsScalar→unfilled py v IsScalar.empty_list = refl
IsScalar→unfilled py v IsScalar.empty_dict = refl
IsScalar→unfilled py v (IsScalar.int n b r) = refl
IsScalar→unfilled py v (IsScalar.float x b r q) = refl
IsScalar→unfilled py v (IsScalar.bare s e b r q) = refl
IsScalar→unfilled py v (IsScalar.quoted s e h k) = refl

pub inner_lines-scalar :
    (py : Conversions) (v : Value) (indent : ℕ) → IsScalar py v → inner_lines py v indent ≡ []
unfolding inner_lines item_lines
inner_lines-scalar py v indent IsScalar.null = refl
inner_lines-scalar py v indent (IsScalar.bool b) = refl
inner_lines-scalar py v indent IsScalar.empty_list = refl
inner_lines-scalar py v indent IsScalar.empty_dict = refl
inner_lines-scalar py v indent (IsScalar.int n b r) = refl
inner_lines-scalar py v indent (IsScalar.float x b r q) = refl
inner_lines-scalar py v indent (IsScalar.bare s e b r q) = refl
inner_lines-scalar py v indent (IsScalar.quoted s e h k) = refl

entry_text-IsClean :
    (py : Conversions) (indent : ℕ) (key : Text) (v : Value)
    → is_key key ≡ true
    → IsWritable py v
    → IsClean (indent, entry_text py key v)
unfolding entry_text is_filled
entry_text-IsClean py indent key v named (scalar s) =
    rw (entry_text-valued py indent key named v (IsScalar→unfilled py v s))
      (valued-IsClean py indent key named v (dump_scalar py v) (dump_scalar-Reads py v s))
entry_text-IsClean py indent key v named (sequence {items = nil} a) =
    valued-IsClean py indent key named (list nil) (dump_scalar py (list nil))
      (dump_scalar-Reads py (list nil) IsScalar.empty_list)
entry_text-IsClean py indent key v named (sequence {items = cons x items} a) =
    opened-IsClean py indent key named
entry_text-IsClean py indent key v named (mapping {fields} a) = nested fields a
  where
    nested :
        (fields : Fields)
        → AreWritable py fields
        → IsClean (indent, entry_text py key (dict fields))
    nested end b =
        valued-IsClean py indent key named (dict end) (dump_scalar py (dict end))
          (dump_scalar-Reads py (dict end) IsScalar.empty_dict)
    nested (field k w rest) b = opened-IsClean py indent key named

item-IsClean :
    (py : Conversions) (indent : ℕ) (v : Value) (w : Text)
    → Reads py v w
    → IsClean (indent, codes "- " ++ w)
unfolding strip_comment cut_comment is_break is_solid starts_with is_space
item-IsClean py indent v w r =
    let kept = stripped→right w r.stripped in
    record {
      one_line = r.one_line;
      uncommented = ap (λ t. 45 ∷ 32 ∷ t) r.uncommented;
      stripped =
          strip-solid (45 ∷ 32 ∷ w) refl
          ∙ (strip_right-append is_space (45 ∷ 32 ∷ []) w (rw kept r.filled)
              ∙ ap (λ t. 45 ∷ 32 ∷ t) kept);
      solid = refl;
    }

pub item_lines-IsClean :
    (py : Conversions) (items : Items) (indent : ℕ)
    → AreItems py items
    → All IsClean (item_lines py items indent)
unfolding item_lines
item_lines-IsClean py nil indent no_more = tt
item_lines-IsClean py (cons v items) indent (item s value plain a) = (
  item-IsClean py indent v (dump_scalar py v) (dump_scalar-Reads py v s),
  item_lines-IsClean py items indent a,
)

-- Every line that the writer writes comes through `_clean_lines`.
mutual
  unfolding inner_lines outline

  inner_lines-IsClean :
      (py : Conversions) (v : Value) (indent : ℕ)
      → IsWritable py v
      → All IsClean (inner_lines py v indent)
  inner_lines-IsClean py v indent (scalar s) =
      subst (All IsClean) (sym (inner_lines-scalar py v indent s)) tt
  inner_lines-IsClean py v indent (sequence {items} a) = item_lines-IsClean py items indent a
  inner_lines-IsClean py v indent (mapping {fields} a) = outline_each-IsClean py fields indent a

  outline_each-IsClean :
      (py : Conversions) (fields : Fields) (indent : ℕ)
      → AreWritable py fields
      → All IsClean (outline py fields indent)
  outline_each-IsClean py fields indent last = tt
  outline_each-IsClean py fields indent (next {key} {v} {fields = rest} named fresh w a) = (
    entry_text-IsClean py indent key v named w,
    All-append IsClean (inner_lines py v (indent + 2)) (outline py rest indent)
        (inner_lines-IsClean py v (indent + 2) w) (outline_each-IsClean py rest indent a),
  )

pub outline-IsClean :
    (py : Conversions) (fields : Fields) (indent : ℕ)
    → AreWritable py fields
    → All IsClean (outline py fields indent)
outline-IsClean = outline_each-IsClean
