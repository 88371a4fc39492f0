-- ===== src/Body/Capabilities.antt =====
-- `src/droidos/body/capabilities.py`: the capability registry. The raw document is a mapping from
-- categories to nodes; numbers are whole numbers of a fixed unit, which the source only tests for
-- truth here.
use droid_os.Prelude.{
  ℕ, ◌==◌, String, Bool, false, not, ◌||◌, Option, none, some, List, [], lookup, str_eq,
}

-- A value of the parsed document.
pub data Value : Type 0 where
  null : Value
  truth : Bool → Value
  number : ℕ → Value
  text : String → Value

-- What stands under a category: a mapping, or anything else.
pub data Node : Type 0 where
  mapping : List (String × Value) → Node
  scalar : Value → Node

pub record Capabilities : Type 0 where
  pub raw : List (String × Node)

-- `bool(value)`
abbrev pub is_truthy : Value → Bool
is_truthy null = false
is_truthy (truth b) = b
is_truthy (number n) = not (n == 0)
is_truthy (text s) = not (str_eq s "")

abbrev pub entries : Option Node → List (String × Value)
entries (some (mapping m)) = m
entries (some (scalar v)) = []
entries none = []

unfoldable pub category : Capabilities → String → List (String × Value)
category c name = entries (lookup name c.raw)

-- `.get(key, default)`
abbrev pub or_default : Option Value → Value → Value
or_default none d = d
or_default (some v) d = v

unfoldable pub get : Capabilities → String → String → Value → Value
unfolding category
get c cat key default = or_default (lookup key (category c cat)) default

unfoldable pub locomotion_mode : Capabilities → String → Value
unfolding get
locomotion_mode c mode = get c "locomotion" mode (truth false)

-- `value is True`: neither a number nor a text is
abbrev pub is_true : Value → Bool
is_true (truth b) = b
is_true _ = false

unfoldable pub can : Capabilities → String → Bool
unfolding locomotion_mode
can c mode = is_true (locomotion_mode c mode)

abbrev pub is_experimental_value : Value → Bool
is_experimental_value (text s) = str_eq s "experimental"
is_experimental_value _ = false

unfoldable pub is_experimental : Capabilities → String → Bool
unfolding locomotion_mode
is_experimental c mode = is_experimental_value (locomotion_mode c mode)

unfoldable pub supports_motion : Capabilities → Bool
unfolding can
supports_motion c = can c "walk" || can c "roll"

unfoldable pub has_perception : Capabilities → String → Bool
unfolding get
has_perception c key = is_truthy (get c "perception" key (truth false))

unfoldable pub has_manipulation : Capabilities → String → Bool
unfolding get
has_manipulation c key = is_truthy (get c "manipulation" key (truth false))

unfoldable pub posture : Capabilities → String → Bool
unfolding get
posture c key = is_truthy (get c "posture" key (truth false))
