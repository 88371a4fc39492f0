-- ===== src/Executive/Handlers/Motion.antt =====
-- The handlers that drive, each through `_drive_to`.
use droid_os.Prelude.{
  or_text, String, ◌^^◌, Bool, true, false, not, Option, none, some, List, if◌then◌else◌, is_some,
  Result, ok, err,
}
use droid_os.Services.SafetyGateway.{Gateway, request_motion_permission}
use droid_os.Services.Navigation.{resolve}
use droid_os.System.{has}
use droid_os.Executive.BehaviourTree
use droid_os.Executive.BehaviourTree.{Status}
use droid_os.Executive.Drive
use droid_os.Executive.Drive.{Trip, drive_to}
use droid_os.Executive.Tasks.{
  Task, Failure, drive, findings, nothing, plain, exception, unknown_place, drive_failed,
  no_permission,
}
use droid_os.Executive.Droid.{Droid, World, gateway, with_gateway}
use droid_os.Executive.Handlers.{Reply, success, failure, raised, add_step, argument, given}

-- What `_drive_to` gives back: the exception, or `ok` with the error's text.
pub data Driven : Type 0 where
  broke : String → Driven
  reached : Driven
  fell_short : Failure → Driven

abbrev driven_of : BehaviourTree.Answer → Failure → Driven
driven_of (BehaviourTree.Answer.raised e) f = broke e
driven_of (BehaviourTree.Answer.returned st) f = elim st [
  | Status.success ↦ reached
  | _ ↦ fell_short f
]

abbrev pub trip_of : {C : Type 0} → String → Droid C → Trip C
trip_of label d = record {
  gateway = gateway d;
  world = d.world;
  held = false;
  result = Drive.Outcome.undecided;
  label = label;
}

abbrev navigated : {C : Type 0} → String → Droid C × Driven × Drive.Outcome → Droid C × Reply C
navigated dest (d, broke e, o) = (d, raised e)
navigated dest (d, reached, o) = (d, success "navigation.navigate_to" (drive o dest false))
navigated dest (d, fell_short f, o) = (d, failure "navigation.navigate_to" (drive o dest false) f)

abbrev charge_on : Option Bool → Option Bool
charge_on none = none
charge_on (some b) = some true

abbrev charged : {C : Type 0} → Droid C × Driven × Drive.Outcome → Droid C × Reply C
charged (d, broke e, o) = (d, raised e)
charged (d, reached, o) = (
  record d { charging = charge_on d.charging },
  success "navigation.go_charge" (drive o "charging station" (is_some d.charging)),
)
charged (d, fell_short f, o) =
    (d, failure "navigation.go_charge" (drive o "charging station" false) f)

abbrev inspected :
    {C : Type 0}
    → Option String
    → Option Drive.Outcome
    → Result String (List (String × String))
    → Reply C
inspected dest o (ok r) = success "inspect.named_target" (findings r dest (is_some o))
inspected dest none (err e) = failure "inspect.named_target" nothing (exception e)
inspected dest (some o) (err e) =
    failure "inspect.named_target" (drive o (or_text dest "") false) (exception e)

module _ {C P : Type 0} where
  -- the reason of a drive that did not succeed
  abbrev why_not : World C P → Gateway → Trip C → Failure
  why_not w g t =
      if t.held
      then drive_failed t.result t.label
      else (let c = w.times.drive in
          no_permission (request_motion_permission c.beat c.now c.stamp c.logged g).1.reason)

  -- `_drive_to`, on the droid; it begins with two steps of the task
  unfoldable pub drive_droid : World C P → String → Droid C → Droid C × Driven × Drive.Outcome
  drive_droid w label d =
      let begun = add_step ("navigate to " ^^ label) (add_step "check health" d) in
      let (t, a) = drive_to w.times.drive w.turns (trip_of label begun) in
      if d.sup.rt.has_safety
      then (
        record (with_gateway t.gateway begun) { world = t.world },
        driven_of a (why_not w (gateway d) t),
        t.result,
      )
      else (begun, broke "AttributeError", Drive.Outcome.undecided)

  -- a place that the navigation resolves, or an exception where there is no navigation
  unfoldable pub h_navigate : World C P → Task → Droid C → Droid C × Reply C
  h_navigate w t d =
      let dest = or_text (argument "destination" t) "" in
      if not (has d.sup.rt "navigation")
      then (d, raised "AttributeError")
      else if not (is_some (resolve w.py d.world dest))
      then (d, failure "navigation.navigate_to" nothing (unknown_place dest))
      else navigated dest (drive_droid w dest d)

  unfoldable pub h_go_charge : World C P → Task → Droid C → Droid C × Reply C
  h_go_charge w t d =
      if not (has d.sup.rt "navigation")
      then (d, raised "AttributeError")
      else if not (is_some (resolve w.py d.world "charging station"))
      then (d, failure "navigation.go_charge" nothing (plain "no charging station is known"))
      else charged (drive_droid w "charging station" d)

  -- the inspection, after the drive if there was one
  abbrev inspect_here :
      World C P → Task → Option String → Option Drive.Outcome → Droid C → Droid C × Reply C
  inspect_here w t dest o d =
      let target = or_text (argument "target" t) "" in
      (add_step ("inspect " ^^ target) d, inspected dest o (w.inspect target))

  abbrev inspect_after :
      World C P → Task → String → Droid C × Driven × Drive.Outcome → Droid C × Reply C
  inspect_after w t dest (d, broke e, o) = (d, raised e)
  inspect_after w t dest (d, fell_short f, o) =
      (d, failure "inspect.named_target" (drive o dest false) f)
  inspect_after w t dest (d, reached, o) = inspect_here w t (some dest) (some o) d

  abbrev inspect_at : World C P → Task → Option String → Droid C → Droid C × Reply C
  inspect_at w t none d = inspect_here w t (argument "destination" t) none d
  inspect_at w t (some dest) d =
      if not (has d.sup.rt "navigation")
      then (d, raised "AttributeError")
      else if not (is_some (resolve w.py d.world dest))
      then (d, failure "inspect.named_target" nothing (unknown_place dest))
      else inspect_after w t dest (drive_droid w dest d)

  unfoldable pub h_inspect : World C P → Task → Droid C → Droid C × Reply C
  h_inspect w t d = inspect_at w t (given (argument "destination" t)) d
