-- ===== src/Language/Tools.antt =====
-- `src/droidos/language/tools.py`: the registered tools. A registry is an association list, in the
-- order in which a Python `dict` keeps its keys.
pub mod Defaults
use droid_os.Prelude.{
  ℕ, String, Bool, true, false, Option, none, some, List, [], ◌∷◌, map, keep, lookup, insert,
  sorted, is_some,
}

pub data Risk : Type 0 where
  harmless motion data_write administrative : Risk

-- whether a tool asks for a confirmation
pub data Confirm : Type 0 where
  never conditional required : Confirm

pub record ToolSpec : Type 0 where
  pub name : String
  pub risk : Risk
  pub requires_motion : Bool
  pub required_capability : Option String
  pub confirmation : Confirm
  pub min_role_rank : ℕ
  pub always_available : Bool
  pub description : String

abbrev pub Registry : Type 0
Registry = List (String × ToolSpec)

unfoldable pub register : ToolSpec → Registry → Registry
register t r = insert t.name t r

-- `__init__`
unfoldable pub registry_of : List ToolSpec → Registry → Registry
unfolding register
registry_of [] r = r
registry_of (t ∷ ts) r = registry_of ts (register t r)

unfoldable pub get : Registry → String → Option ToolSpec
get r name = lookup name r

unfoldable pub is_registered : Registry → String → Bool
is_registered r name = is_some (lookup name r)

unfoldable pub all : Registry → List ToolSpec
all r = map (λ (p : String × ToolSpec). p.1) r

unfoldable pub names : Registry → List String
names r = sorted (map (λ (p : String × ToolSpec). p.0) r)

unfoldable pub always_available_tools : Registry → List ToolSpec
unfolding all
always_available_tools r = keep (λ (t : ToolSpec). t.always_available) (all r)
