-- ===== src/Prelude/Texts.antt =====
-- Texts are native strings: the program compares them, tests prefixes and joins them.
use Prim.Native.String.{String, compare, ◌++◌ as ◌^^◌}
use mathlib.Core.Path.{◌≡◌, refl}
use mathlib.Core.Bool.{Bool, true, false}
use mathlib.Core.List.{List, [], ◌∷◌}
use mathlib.Core.Option.{Option, none, some}
use native.Mathlib.Omega.{arith}
use text.Mathlib.Text.{◌==◌, is_le, find?}
use text.Mathlib.TextEquality.{eq_iff}
use droid_os.Prelude.Tests.{if◌then◌else◌}
use droid_os.Prelude.Lists.{any}

abbrev pub str_eq : String → String → Bool
str_eq s t = s == t

-- the text that is given, or the default
abbrev pub or_text : Option String → String → String
or_text none d = d
or_text (some s) d = s

-- the order of texts, by code points
abbrev pub str_leb : String → String → Bool
str_leb s t = is_le (compare s t)

-- `s in names`
abbrev pub contains : String → List String → Bool
contains s names = any (λ t. str_eq t s) names

-- `sorted`: the texts in the order of their code points
abbrev pub insert_sorted : String → List String → List String
insert_sorted f [] = f ∷ []
insert_sorted f (g ∷ gs) = if str_leb f g then f ∷ g ∷ gs else g ∷ insert_sorted f gs

abbrev pub sorted : List String → List String
sorted [] = []
sorted (f ∷ fs) = insert_sorted f (sorted fs)

-- `sep.join(parts)`
abbrev pub join : String → List String → String
join sep [] = ""
join sep (s ∷ []) = s
join sep (s ∷ t ∷ ts) = s ^^ (sep ^^ join sep (t ∷ ts))

-- `part in whole`
abbrev pub is_substring : String → String → Bool
is_substring part whole = elim (find? whole part) [ none ↦ false | some i ↦ true ]

-- A dictionary from texts, in the order of insertion.
module _ {ℓ} {V : Type ℓ} where
  -- `d.get(name)`
  unfoldable pub lookup : String → List (String × V) → Option V
  lookup name [] = none
  lookup name (entry ∷ rest) = if str_eq entry.0 name then some entry.1 else lookup name rest

  -- `d[name] = value`, which keeps the place of a name that is there
  unfoldable pub insert : String → V → List (String × V) → List (String × V)
  insert name value [] = (name, value) ∷ []
  insert name value (entry ∷ rest) =
      let deeper = insert name value rest in
      if str_eq entry.0 name then (name, value) ∷ rest else entry ∷ deeper

  -- `del d[name]`, or nothing where the name is missing
  unfoldable pub without : String → List (String × V) → List (String × V)
  without name [] = []
  without name (entry ∷ rest) =
      let deeper = without name rest in if str_eq entry.0 name then deeper else entry ∷ deeper

  pub lookup-insert :
      (name other : String) (value : V) (entries : List (String × V))
      → lookup other (insert name value entries)
        ≡ (if str_eq name other then some value else lookup other entries)
  unfolding lookup insert
  lookup-insert name other value [] = refl
  lookup-insert name other value (entry ∷ rest) =
      let deeper = lookup-insert name other value rest in
      ground (arith, deeper, eq_iff entry.0 name, eq_iff entry.0 other, eq_iff name other)

  pub lookup-without :
      (name other : String) (entries : List (String × V))
      → lookup other (without name entries)
        ≡ (if str_eq name other then none else lookup other entries)
  unfolding lookup without
  lookup-without name other [] = ground arith
  lookup-without name other (entry ∷ rest) =
      let deeper = lookup-without name other rest in
      ground (arith, deeper, eq_iff entry.0 name, eq_iff entry.0 other, eq_iff name other)

-- Methods of Python's `str` that the program calls, which are not modelled.
pub record StrMethods : Type 0 where
  pub lower : String → String
  pub words : String → List String  -- `s.strip().lower().split()`

-- Splitting the words of a text, joined by single spaces, gives those words again.
abbrev pub WordsRejoin : StrMethods → Type 0
WordsRejoin py = (s : String) → py.words (join " " (py.words s)) ≡ py.words s
