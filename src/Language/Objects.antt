-- ===== src/Language/Objects.antt =====
-- `_first_json_object` of `src/droidos/language/providers.py`. The content is the list of its
-- characters; `json.loads` is the argument `loads`, which gives nothing where it raises.
pub mod Balanced
use Prim.Native.Char.{Char, code}
use droid_os.Prelude.{
  ℕ, zero, suc, ◌-◌, ◌==◌, Bool, true, false, Option, none, some, List, [], ◌∷◌, if◌then◌else◌,
}

abbrev pub opens : Char → Bool
opens c = code c == 123  -- `{`

abbrev pub closes : Char → Bool
closes c = code c == 125  -- `}`

abbrev pub behind : {A : Type 0} → A → Option (List A) → Option (List A)
behind c none = none
behind c (some cs) = some (c ∷ cs)

-- `text[start : i + 1]`, where the depth falls to 0 at `i`
unfoldable pub scan : ℕ → List Char → Option (List Char)
scan depth [] = none
scan depth (c ∷ cs) =
    let deeper = scan (suc depth) cs in
    let higher = scan (depth - 1) cs in
    let same = scan depth cs in
    if opens c
    then behind c deeper
    else if closes c
    then (if (depth - 1) == 0 then some (c ∷ []) else behind c higher)
    else behind c same

module _ {O : Type 0} (loads : List Char → Option O) where
  -- the object of that slice, if it is one, or the next
  abbrev pub load_or : Option (List Char) → Option O → Option O
  load_or none next = next
  load_or (some s) next = elim (loads s) [ none ↦ next | some o ↦ some o ]

  unfoldable pub first_object : List Char → Option O
  unfolding scan
  first_object [] = none
  first_object (c ∷ cs) =
      let next = first_object cs in if opens c then load_or (scan 0 (c ∷ cs)) next else next
