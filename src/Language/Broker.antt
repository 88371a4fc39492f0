-- ===== src/Language/Broker.antt =====
-- `src/droidos/language/broker.py`: the gate that every proposed action passes. The arguments of an
-- intent are texts; a reason that quotes a value or joins other reasons is a value of `Reason`.
pub mod Gates
pub mod Log
pub mod Admin
mod Examples
use droid_os.Prelude.{
  ℕ, String, ◌^^◌, Bool, true, false, not, ◌&&◌, ◌||◌, Option, none, some, List, [], ◌∷◌, ◌++◌, map,
  any, is_nil, lookup, str_eq, join, contains, is_substring, is_some, if◌then◌else◌, StrMethods,
}
use droid_os.Core.States.{DroidState, value, among, motion_allowed_from}
use droid_os.Core.States
use droid_os.Body.Capabilities.{Capabilities, supports_motion, has_perception, has_manipulation}
use droid_os.System.{Body, Runtime}
use droid_os.Services.WorldModel.{WorldModel}
use droid_os.Services.Navigation.{Route, traversable, resolve, known_places}
use droid_os.Services.Supervisor.Readiness.{Inhibit, Readiness, assess_readiness}
use droid_os.Language.Auth.{User, authorize}
use droid_os.Language.Tools.{
  ToolSpec, Registry, get, Risk, motion, Confirm, never, required, conditional,
}

-- `StructuredIntent`, of which the broker reads this
pub record Intent : Type 0 where
  pub intent : String
  pub arguments : List (String × String)
  pub requested_speed : String

pub data Outcome : Type 0 where
  approved rejected confirmation_required : Outcome

pub data Reason : Type 0 where
  plain : String → Reason
  lacks_capability : String → Reason
  unknown_destination : (dest : String) (known : List String) → Reason
  route : Route → Reason
  inhibited : List Inhibit → Reason
  state_is : DroidState → Reason

pub record Check : Type 0 where
  pub name : String
  pub ok : Bool
  pub detail : Reason

pub record BrokerDecision : Type 0 where
  pub outcome : Outcome
  pub tool : Option ToolSpec
  pub reason : Reason
  pub confirm_prompt : String
  pub checks : List Check

-- What the broker finds around the runtime: the registry, the world model, and whether there are a
-- navigation service and a supervisor; and the readings of the clock while it assesses readiness.
pub record Site (C : Type 0) : Type 0 where
  pub rt : Runtime
  pub registry : Registry
  pub world : Option (WorldModel C)
  pub has_navigation : Bool
  pub has_supervisor : Bool
  pub first : ℕ
  pub beat : ℕ
  pub now : ℕ

-- `_capability_ok`
unfoldable pub capability_ok : Option Body → Option String → Bool × Reason
capability_ok none cap = (false, plain "no body is loaded")
capability_ok (some b) none = (true, plain "no capability required")
capability_ok (some b) (some cap) =
    if str_eq cap "locomotion"
    then (if supports_motion b.capabilities
        then (true, plain "locomotion available")
        else (false, lacks_capability cap))
    else if has_perception b.capabilities cap
    then (true, plain (cap ^^ " available"))
    else if has_manipulation b.capabilities cap
    then (true, plain (cap ^^ " available"))
    else (false, lacks_capability cap)

abbrev body_capabilities : Option Body → Option Capabilities
body_capabilities none = none
body_capabilities (some b) = some b.capabilities

-- `f"This will {tool.description or tool.name}{detail}. Confirm? [yes/no]"`
unfoldable pub confirm_prompt : ToolSpec → Intent → String
confirm_prompt t i =
    let args = join ", " (map (λ (a : String × String). a.0 ^^ "=" ^^ a.1) i.arguments) in
    "This will "
    ^^ (if str_eq t.description "" then t.name else t.description)
    ^^ (if str_eq args "" then "" else " (" ^^ args ^^ ")")
    ^^ ". Confirm? [yes/no]"

abbrev pub text_or_empty : Option String → String
text_or_empty none = ""
text_or_empty (some s) = s

abbrev personal_words : List String
personal_words = "my name" ∷ "i am " ∷ "person" ∷ "phone" ∷ "address" ∷ "password" ∷ []

-- The outcome and the reason of a gate: `Readiness` is in a state that allows motion, or not.
abbrev readiness_permits : Readiness → Bool × Reason
readiness_permits r =
    if among r.state motion_allowed_from then (true, plain "motion permitted") else (
      false,
      (if is_nil r.inhibit_reasons then state_is r.state else inhibited r.inhibit_reasons),
    )

abbrev is_motion : Risk → Bool
is_motion motion = true
is_motion _ = false

abbrev check : String → Bool → Reason → Check
check name ok detail = record { name = name; ok = ok; detail = detail }

abbrev reject : Reason → Option ToolSpec → List Check → BrokerDecision
reject reason t checks = record {
  outcome = rejected;
  tool = t;
  reason = reason;
  confirm_prompt = "";
  checks = checks;
}

abbrev approve : ToolSpec → List Check → BrokerDecision
approve t checks = record {
  outcome = approved;
  tool = some t;
  reason = plain "approved";
  confirm_prompt = "";
  checks = checks;
}

module _ {C : Type 0} (py : StrMethods) where
  -- the destination named, against the known places and the routes
  abbrev named_destination : Site C → String → Bool × Reason
  named_destination s dest =
      if not (is_some (resolve py s.world dest))
      then (false, unknown_destination dest (known_places py s.world))
      else (let (can_go, why) = traversable py (body_capabilities s.rt.body) s.world dest in
          if not can_go then (false, route why) else (true, plain (dest ^^ " is reachable")))

  -- `_destination_ok`
  unfoldable pub destination_ok : Site C → Intent → ToolSpec → Bool × Reason
  destination_ok s i t =
      if not s.has_navigation
      then (false, plain "navigation service unavailable")
      else (let dest =
            if str_eq t.name "navigation.go_charge"
            then "charging station"
            else text_or_empty (lookup "destination" i.arguments) in
          if str_eq dest ""
          then (if str_eq t.name "inspect.named_target"
              then (true, plain "inspect in current position")
              else (false, plain "no destination was specified"))
          else named_destination s dest)

  -- `_motion_permitted`
  unfoldable pub motion_permitted : Site C → Runtime × (Bool × Reason)
  motion_permitted s =
      if s.has_supervisor
      then (let (rt, r) = assess_readiness s.first s.beat s.now s.rt in (rt, readiness_permits r))
      else (
        s.rt,
        (if States.motion_permitted s.rt.gateway.machine
            then (true, plain "motion permitted")
            else (false, state_is s.rt.gateway.machine.state)),
      )

  -- `_needs_confirmation` for a tool with a conditional confirmation
  abbrev conditionally : Site C → ToolSpec → Intent → Bool
  conditionally s t i =
      if is_motion t.risk
      then (let dest = text_or_empty (lookup "destination" i.arguments) in
          is_substring "stair" (py.lower dest)
          || ((not (str_eq dest "")
                && (s.has_navigation && not (is_some (resolve py s.world dest))))
              || not (str_eq i.requested_speed "cautious")))
      else if contains t.name ("memory.remember" ∷ "memory.store_place" ∷ [])
      then (let text = py.lower (join " " (map (λ (a : String × String). a.1) i.arguments)) in
          any (λ w. is_substring w text) personal_words)
      else false

  -- `_needs_confirmation`
  unfoldable pub needs_confirmation : Site C → ToolSpec → Intent → Confirm → Bool × String
  unfolding confirm_prompt
  needs_confirmation s t i never = (false, "")
  needs_confirmation s t i required = (true, confirm_prompt t i)
  needs_confirmation s t i conditional =
      if conditionally s t i then (true, confirm_prompt t i) else (false, "")

  -- the last gate
  abbrev confirm : Site C → Intent → Bool → ToolSpec → List Check → BrokerDecision
  confirm s i confirmed t log =
      let (need, prompt) = needs_confirmation s t i t.confirmation in
      let checks =
        log
        ++ check "confirmation" (not need) (plain (if need then prompt else "not required")) ∷ [] in
      if need && not confirmed
      then record {
        outcome = confirmation_required;
        tool = some t;
        reason = plain "confirmation required";
        confirm_prompt = prompt;
        checks = checks;
      }
      else approve t checks

  -- The gates on a motion: the destination, then the permission to move.
  abbrev motion_gates : Site C → Intent → Bool → ToolSpec → List Check → Runtime × BrokerDecision
  motion_gates s i confirmed t log =
      let (dest_ok, dest_reason) = destination_ok s i t in
      let log' = log ++ check "destination" dest_ok dest_reason ∷ [] in
      if not dest_ok
      then (s.rt, reject dest_reason (some t) log')
      else (let (rt, permission) = motion_permitted s in
          let (move_ok, move_reason) = permission in
          let log'' = log' ++ check "motion_permitted" move_ok move_reason ∷ [] in
          if not move_ok
          then (rt, reject move_reason (some t) log'')
          else (rt, confirm s i confirmed t log''))

  -- the gates that a tool which is not always available has to pass
  abbrev gated : Site C → Intent → User → Bool → ToolSpec → List Check → Runtime × BrokerDecision
  gated s i u confirmed t log =
      let (ok, detail) = authorize u t.min_role_rank in
      let log1 = log ++ check "authorization" ok (plain detail) ∷ [] in
      if not ok
      then (s.rt, reject (plain detail) (some t) log1)
      else (let (cap_ok, cap_reason) = capability_ok s.rt.body t.required_capability in
          let log2 = log1 ++ check "capability" cap_ok cap_reason ∷ [] in
          if not cap_ok
          then (s.rt, reject cap_reason (some t) log2)
          else if t.requires_motion
          then motion_gates s i confirmed t log2
          else (s.rt, confirm s i confirmed t log2))

  -- the tool that the intent names, or none
  unfoldable pub validate_tool :
      Site C → Intent → User → Bool → Option ToolSpec → Runtime × BrokerDecision
  validate_tool s i u confirmed none = (
    s.rt,
    reject
        (plain (
          if not (str_eq i.intent "unknown")
          then "I do not have a registered action for that request."
          else "I did not understand that request."))
        none (check "registered" false (plain i.intent) ∷ []),
  )
  validate_tool s i u confirmed (some t) =
      let log = check "registered" true (plain t.name) ∷ [] in
      if t.always_available
      then (s.rt, approve t (log ++ check "always_available" true (plain "") ∷ []))
      else gated s i u confirmed t log

  unfoldable pub validate : Site C → Intent → User → Bool → Runtime × BrokerDecision
  unfolding validate_tool
  validate s i u confirmed = validate_tool s i u confirmed (get s.registry i.intent)
