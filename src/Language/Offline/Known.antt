-- ===== src/Language/Offline/Known.antt =====
-- What the offline parser proposes.
use droid_os.Prelude.{
  String, ◌≡◌, refl, Bool, true, ◌||◌, Option, none, some, List, [], ◌∷◌, arith, str_eq, join,
  lookup, insert,
}
use droid_os.Language.Tools.{Registry, is_registered, registry_of, register}
use droid_os.Language.Tools.Defaults.{default_tools}
use droid_os.Language.Broker.{Intent}
use droid_os.Language.Offline.{
  Texts, parse, safety_command, question, memory_command, motion_command, or_else, or_unknown,
}

-- the names that the parser can propose
abbrev pub offline_names : List String
offline_names =
    "motion.emergency_stop" ∷ "voice.silence" ∷ "motion.stop" ∷ "task.cancel" ∷ "system.shutdown"
    ∷ "system.request_reboot" ∷ "robot.return_safe_idle" ∷ "robot.get_battery"
    ∷ "robot.get_temperature" ∷ "diagnostics.summary" ∷ "robot.explain" ∷ "help"
    ∷ "perception.describe_scene" ∷ "navigation.list_places" ∷ "robot.get_status" ∷ "memory.forget"
    ∷ "memory.remember" ∷ "inspect.named_target" ∷ "navigation.go_charge" ∷ "navigation.navigate_to"
    ∷ []

-- A registered name, or the name of what was not understood.
abbrev pub is_proper : Registry → String → Bool
is_proper r name = is_registered r name || str_eq name "unknown"

abbrev named : Registry → Option Intent → Bool
named r none = true
named r (some i) = is_proper r i.intent

abbrev pub defaults : Registry
defaults = registry_of default_tools []

or_else-named :
    (a b : Option Intent)
    → named defaults a ≡ true
    → named defaults b ≡ true
    → named defaults (or_else a b) ≡ true
or_else-named none b p q = q
or_else-named (some i) b p q = p

or_unknown-named :
    (raw : String) (o : Option Intent)
    → named defaults o ≡ true
    → is_proper defaults (or_unknown raw o).intent ≡ true
unfolding is_registered lookup registry_of register insert default_tools
or_unknown-named raw none p = refl
or_unknown-named raw (some i) p = p

module _ (py : Texts) where
  safety_command-named : (t : String) → named defaults (safety_command py t) ≡ true
  unfolding safety_command is_registered lookup registry_of register insert default_tools
  safety_command-named t = ground (arith)

  question-named : (t : String) → named defaults (question py t) ≡ true
  unfolding question is_registered lookup registry_of register insert default_tools
  question-named t = ground (arith)

  memory_command-named : (raw t : String) → named defaults (memory_command py raw t) ≡ true
  unfolding memory_command is_registered lookup registry_of register insert default_tools
  memory_command-named raw t = ground (arith)

  motion_command-named : (t : String) → named defaults (motion_command py t) ≡ true
  unfolding motion_command is_registered lookup registry_of register insert default_tools
  motion_command-named t = ground (arith)

  -- Whatever the text says, the parser answers with an intent that the default registry has, or with
  -- "unknown".
  pub parse-is_proper : (text : String) → is_proper defaults (parse py text).intent ≡ true
  unfolding parse
  parse-is_proper text =
      let raw = py.strip text in
      let t = join " " (py.split (py.lower raw)) in
      or_unknown-named raw _ (
        or_else-named (safety_command py t) _ (safety_command-named t) (
          or_else-named (question py t) _ (question-named t) (
            or_else-named (memory_command py raw t) _ (memory_command-named raw t)
              (motion_command-named t))))
