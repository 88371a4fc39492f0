-- ===== src/Util/MiniYaml/RoundTrip/Assigning.antt =====
-- util/miniyaml.py: a mapping's keys, assigned in turn, give the mapping when they differ.
use droid_os.Prelude.{◌≡◌, refl, sym, ap, ◌∙◌, false, arith, Bool-cases, inl, inr}
use droid_os.Util.MiniYaml.Text.{Text, text_eq}
use droid_os.Util.MiniYaml.Values.{Value, Fields, end, field, Conversions, assign}
use droid_os.Util.MiniYaml.RoundTrip.Texts.{text_eq_refl, text_eq→eq}
use droid_os.Util.MiniYaml.RoundTrip.Writable.{has_key, AreWritable, last, next}

unfoldable pub assign_all : Fields → Fields → Fields
assign_all end result = result
assign_all (field key v fields) result = assign_all fields (assign key v result)

unfoldable append : Fields → Fields → Fields
append end others = others
append (field key v fields) others = field key v (append fields others)

append-end : (fields : Fields) → append fields end ≡ fields
unfolding append
append-end end = refl
append-end (field key v fields) = ap (field key v) (append-end fields)

append_assoc : (a b c : Fields) → append (append a b) c ≡ append a (append b c)
unfolding append
append_assoc end b c = refl
append_assoc (field key v a) b c = ap (field key v) (append_assoc a b c)

-- no key of the first is a key of the second
abbrev Disjoint : Fields → Fields → Type 0
Disjoint end result = Unit
Disjoint (field key v fields) result = (has_key key result ≡ false) × Disjoint fields result

assign-append :
    (key : Text) (v : Value) (result : Fields)
    → has_key key result ≡ false
    → assign key v result ≡ append result (field key v end)
unfolding assign append has_key
assign-append key v end h = refl
assign-append key v (field k w result) h = ground (arith, assign-append key v result)

text_eq_sym : (s t : Text) → text_eq s t ≡ false → text_eq t s ≡ false
text_eq_sym s t h = elim (Bool-cases (text_eq t s)) [
  | inl e ↦ let same : t ≡ s = text_eq→eq t s e in cc (rw same at h, text_eq_refl s)
  | inr e ↦ e
]

has_key-append :
    (key k : Text) (v : Value) (result : Fields)
    → has_key key result ≡ false
    → text_eq k key ≡ false
    → has_key key (append result (field k v end)) ≡ false
unfolding has_key append
has_key-append key k v end h e = ground arith
has_key-append key k v (field j w result) h e = ground (arith, has_key-append key k v result)

Disjoint-append :
    (key : Text) (v : Value) (fields result : Fields)
    → has_key key fields ≡ false
    → Disjoint fields result
    → Disjoint fields (append result (field key v end))
unfolding has_key
Disjoint-append key v end result h d = tt
Disjoint-append key v (field k w fields) result h d = (
  has_key-append k key v result d.0 (text_eq_sym k key (ground arith)),
  Disjoint-append key v fields result (ground arith) d.1,
)

assign_all-append :
    (py : Conversions) (fields result : Fields)
    → AreWritable py fields
    → Disjoint fields result
    → assign_all fields result ≡ append result fields
unfolding assign_all
assign_all-append py end result last d = sym (append-end result)
assign_all-append py (field key v fields) result (next named fresh w a) d =
    ap (assign_all fields) (assign-append key v result d.0)
    ∙ (assign_all-append py fields (append result (field key v end)) a
          (Disjoint-append key v fields result fresh d.1)
        ∙ (append_assoc result (field key v end) fields
            ∙ ap (append result) (unfold append in refl)))

Disjoint-end : (fields : Fields) → Disjoint fields end
unfolding has_key
Disjoint-end end = tt
Disjoint-end (field key v fields) = (refl, Disjoint-end fields)

pub assign_all-end :
    (py : Conversions) (fields : Fields) → AreWritable py fields → assign_all fields end ≡ fields
assign_all-end py fields a =
    assign_all-append py fields end a (Disjoint-end fields) ∙ (unfold append in refl)
