-- ===== src/Services/Navigation.antt =====
-- `src/droidos/services/navigation.py`: which destinations are known, and which of them the body can
-- reach. The world model is `none` when the service is missing. Poses, plans and the lidar's
-- collision check work on floats and are left out.
pub mod Reach
use droid_os.Prelude.{
  String, Bool, true, false, not, ◌||◌, ◌&&◌, Option, none, some, List, [], StrMethods, str_eq,
  if◌then◌else◌, is_some,
}
use droid_os.Body.Capabilities.{Capabilities, supports_motion, can}
use droid_os.Services.WorldModel.{Place, WorldModel, place_names, get_place, is_restricted}

-- The texts that `traversable` answers with.
pub data Route : Type 0 where
  cannot_move restricted_area unknown_destination cannot_climb reachable : Route

abbrev is_stairs : {C : Type 0} → Place C → Bool
is_stairs p = str_eq p.kind "stairs"

abbrev moves : Option Capabilities → Bool
moves none = false
moves (some c) = supports_motion c

abbrev climbs : Option Capabilities → Bool
climbs none = false
climbs (some c) = can c "stairs"

module _ {C : Type 0} (py : StrMethods) where
  unfoldable pub known_places : Option (WorldModel C) → List String
  known_places none = []
  known_places (some w) = place_names w

  unfoldable pub resolve : Option (WorldModel C) → String → Option (Place C)
  resolve none name = none
  resolve (some w) name = get_place py name w

  abbrev restricted : Option (WorldModel C) → String → Bool
  restricted none name = false
  restricted (some w) name = is_restricted py name w

  -- the checks on a place that is known, or not
  unfoldable pub place_route : Bool → Option (Place C) → Bool × Route
  place_route stairs none = (false, unknown_destination)
  place_route stairs (some p) =
      if is_stairs p && not stairs then (false, cannot_climb) else (true, reachable)

  unfoldable pub traversable : Option Capabilities → Option (WorldModel C) → String → Bool × Route
  unfolding place_route resolve
  traversable body world name =
      if not (moves body)
      then (false, cannot_move)
      else if restricted world name
      then (false, restricted_area)
      else place_route (climbs body) (resolve world name)
