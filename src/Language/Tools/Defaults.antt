-- ===== src/Language/Tools/Defaults.antt =====
-- `_default_tools` of `src/droidos/language/tools.py`.
use droid_os.Prelude.{ℕ, String, Bool, true, false, Option, none, some, List, [], ◌∷◌}
use droid_os.Language.Tools.{
  Risk, harmless, motion, data_write, administrative, Confirm, never, conditional, required,
  ToolSpec,
}

-- `ToolSpec(…)`, with its defaults written out
abbrev tool : String → Risk → Bool → Option String → Confirm → ℕ → Bool → String → ToolSpec
tool name risk requires_motion required_capability confirmation min_role_rank always_available
      description =
    record {
      name = name;
      risk = risk;
      requires_motion = requires_motion;
      required_capability = required_capability;
      confirmation = confirmation;
      min_role_rank = min_role_rank;
      always_available = always_available;
      description = description;
    }

unfoldable pub default_tools : List ToolSpec
default_tools =
    tool "robot.get_status" harmless false none never 0 false "report overall status"
    ∷ tool "robot.get_battery" harmless false none never 0 false "report battery level"
    ∷ tool "robot.get_temperature" harmless false none never 0 false "report motor temperatures"
    ∷ tool "diagnostics.summary" harmless false none never 0 false
        "summarise health / what is wrong"
    ∷ tool "robot.explain" harmless false none never 0 false
        "explain last task or why motion is disabled"
    ∷ tool "perception.describe_scene" harmless false (some "front_camera") never 0 false
        "describe what the camera sees"
    ∷ tool "navigation.list_places" harmless false none never 0 false "list known destinations"
    ∷ tool "help" harmless false none never 0 true "list available commands"
    ∷ tool "motion.stop" harmless false none never 0 true "stop immediately"
    ∷ tool "motion.emergency_stop" harmless false none never 0 true "remove motor power immediately"
    ∷ tool "task.cancel" harmless false none never 0 true "cancel the active task"
    ∷ tool "voice.silence" harmless false none never 0 true "stop speaking"
    ∷ tool "robot.return_safe_idle" harmless false none never 0 false "return to safe idle"
    ∷ tool "navigation.navigate_to" motion true (some "locomotion") conditional 1 false
        "navigate to a named place"
    ∷ tool "navigation.go_charge" motion true (some "locomotion") never 1 false
        "return to the charging station"
    ∷ tool "inspect.named_target" motion true (some "locomotion") conditional 1 false
        "go to a place and inspect a target"
    ∷ tool "memory.remember" data_write false none conditional 1 false "remember a fact"
    ∷ tool "memory.store_place" data_write false none conditional 1 false "remember a named place"
    ∷ tool "memory.forget" data_write false none required 1 false "delete a memory"
    ∷ tool "system.set_body" administrative false none required 3 false
        "activate a different body package"
    ∷ tool "system.install_update" administrative false none required 3 false
        "install a signed update"
    ∷ tool "system.request_reboot" administrative false none required 3 false "reboot the droid"
    ∷ tool "system.shutdown" administrative false none required 3 false "shut down the droid"
    ∷ []
