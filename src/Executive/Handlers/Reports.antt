-- ===== src/Executive/Handlers/Reports.antt =====
-- The handlers that report, and change nothing but what asking the safety controller changes.
use droid_os.Prelude.{
  or_text, leb, String, Bool, false, Option, none, some, List, [], ◌∷◌, map, if◌then◌else◌, str_eq,
}
use droid_os.Core.States.{motion_permitted}
use droid_os.Backends.SafetyController.{SafetyControllerState}
use droid_os.Services.SafetyGateway
use droid_os.Services.SafetyGateway.{Gateway}
use droid_os.Services.Supervisor.Readiness.{Inhibit, assess_readiness}
use droid_os.Services.WorldModel.{WorldModel, place_names}
use droid_os.Language.Tools.{Registry, ToolSpec, all}
use droid_os.System.{Body, Readings, has_backend}
use droid_os.Executive.Tasks.{
  Task, Facts, status, battery, report, last_task, why, places, tools, plain,
}
use droid_os.Executive.Droid.{Droid, World, runtime, gateway, with_runtime, with_gateway}
use droid_os.Executive.Handlers.{Reply, success, failure, raised, reply_of, argument}

abbrev body_id : Option Body → Option String
body_id none = none
body_id (some b) = some b.body_id

abbrev is_charging : Option Bool → Bool
is_charging none = false
is_charging (some b) = b

abbrev battery_report : {C : Type 0} → Droid C → Readings → Option Body → Reply C
battery_report d r none = raised "AttributeError"
battery_report d r (some b) = success "robot.get_battery" (
    battery r.battery_percent (is_charging d.charging) b.battery_motion_minimum
      (leb b.battery_motion_minimum r.battery_percent))

abbrev last : List Task → Option Task
last [] = none
last (t ∷ []) = some t
last (t ∷ (u ∷ ts)) = last (u ∷ ts)

abbrev described : {C : Type 0} → Bool → List (String × String) → Reply C
described ok r =
    if ok
    then success "perception.describe_scene" (report r)
    else failure "perception.describe_scene" (report r) (plain "")

abbrev place_facts : {C : Type 0} → Option (WorldModel C) → Facts C
place_facts none = places [] []
place_facts (some w) = places (place_names w) w.world.places

abbrev tool_lines : Option Registry → List (String × String)
tool_lines none = []
tool_lines (some r) = map (λ (s : ToolSpec). (s.name, s.description)) (all r)

module _ {C P : Type 0} where
  -- the assessment, if there is a supervisor
  unfoldable pub assess : World C P → Droid C → Droid C × List Inhibit
  assess w d =
      if d.has_supervisor
      then (let (rt, r) = assess_readiness w.times.first w.times.beat w.times.now (runtime d) in
          (with_runtime rt d, r.inhibit_reasons))
      else (d, [])

  -- `rt.safety.status() if rt.safety else {}`
  unfoldable pub safety_status : World C P → Droid C → Droid C × Option SafetyControllerState
  safety_status w d =
      if d.sup.rt.has_safety
      then (let (g, st) = SafetyGateway.status w.times.beat w.times.now (gateway d) in
          (with_gateway g d, some st))
      else (d, none)

  unfoldable pub h_status : World C P → Task → Droid C → Droid C × Reply C
  unfolding assess safety_status
  h_status w t d =
      let (d', reasons) = assess w d in
      let (d'', safety) = safety_status w d' in
      let rt = d''.sup.rt in
      let percent = if has_backend rt then some rt.readings.battery_percent else none in
      (
        d'',
        success "robot.get_status" (
            status rt.gateway.machine.state (body_id rt.body) percent
              (motion_permitted rt.gateway.machine) reasons safety),
      )

  unfoldable pub h_battery : World C P → Task → Droid C → Droid C × Reply C
  h_battery w t d =
      let rt = d.sup.rt in
      (d, if has_backend rt then battery_report d rt.readings rt.body else raised "AttributeError")

  unfoldable pub h_temperature : World C P → Task → Droid C → Droid C × Reply C
  h_temperature w t d =
      (d, reply_of w.temperature (λ r. success "robot.get_temperature" (report r)))

  unfoldable pub h_diagnostics : World C P → Task → Droid C → Droid C × Reply C
  h_diagnostics w t d = (d, reply_of w.diagnosis (λ r. success "diagnostics.summary" (report r)))

  -- `rt.safety.estop_engaged() if rt.safety else False`
  unfoldable pub is_stopped : World C P → Droid C → Droid C × Bool
  is_stopped w d =
      if d.sup.rt.has_safety
      then (let (g, engaged) = SafetyGateway.estop_engaged_now w.times.now (gateway d) in
          (with_gateway g d, engaged))
      else (d, false)

  unfoldable pub h_explain : World C P → Task → Droid C → Droid C × Reply C
  unfolding assess is_stopped
  h_explain w t d =
      if str_eq (or_text (argument "topic" t) "why") "current_task"
      then (d, success "robot.explain" (last_task (last d.history)))
      else (let (d', reasons) = assess w d in
          let (d'', engaged) = is_stopped w d' in
          (d'', success "robot.explain" (why d'.sup.rt.gateway.machine.state reasons engaged)))

  unfoldable pub h_describe : World C P → Task → Droid C → Droid C × Reply C
  h_describe w t d = (d, reply_of w.scene (described w.scene_ok))

  unfoldable pub h_list_places : World C P → Task → Droid C → Droid C × Reply C
  h_list_places w t d = (d, success "navigation.list_places" (place_facts d.world))

  unfoldable pub h_help : World C P → Task → Droid C → Droid C × Reply C
  h_help w t d = (d, success "help" (tools (tool_lines d.tools)))
