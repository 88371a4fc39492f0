-- ===== src/Language/Offline.antt =====
-- `src/droidos/language/offline_parser.py`: the parser that needs no language model. Python's methods
-- of texts and its regular expressions are the argument `py`. Of an intent, what the broker reads.
pub mod Known
use droid_os.Prelude.{
  ℕ, String, ◌^^◌, Bool, true, false, not, ◌&&◌, ◌||◌, Option, none, some, List, [], ◌∷◌, join,
  contains, is_substring, is_some, if◌then◌else◌, any, str_eq,
}
use droid_os.Language.Broker.{Intent}

-- A match gives its groups.
pub record Texts : Type 0 where
  pub strip : String → String
  pub lower : String → String
  pub split : String → List String
  pub rstrip : (chars s : String) → String
  pub starts_with : (prefix s : String) → Bool
  pub drop : ℕ → String → String  -- `s[n:]`
  pub search : (pattern s : String) → Option (List String)
  pub match_start : (pattern s : String) → Option (List String)  -- `re.match`
  pub match_any_case : (pattern s : String) → Option (List String)  -- with `re.IGNORECASE`
  pub full_match : (pattern s : String) → Option (List String)

abbrev pub affirm : List String
affirm =
    "yes" ∷ "y" ∷ "confirm" ∷ "confirmed" ∷ "do it" ∷ "go ahead" ∷ "affirmative" ∷ "proceed" ∷ []

abbrev pub negative : List String
negative =
    "no" ∷ "n" ∷ "cancel" ∷ "cancel that" ∷ "stop" ∷ "negative" ∷ "abort" ∷ "don't" ∷ "dont" ∷ []

-- `StructuredIntent(intent=intent, arguments=arguments, requested_speed=speed)`
abbrev pub proposed : String → List (String × String) → String → Intent
proposed intent arguments speed = record {
  intent = intent;
  arguments = arguments;
  requested_speed = speed;
}

-- `si(intent)`
abbrev plain : String → Intent
plain intent = proposed intent [] "normal"

abbrev group1 : List String → String
group1 [] = ""
group1 (g ∷ gs) = g

abbrev group2 : List String → String
group2 [] = ""
group2 (g ∷ gs) = group1 gs

-- the first answer, or the next rule
abbrev or_else : Option Intent → Option Intent → Option Intent
or_else (some i) next = some i
or_else none next = next

abbrev or_unknown : String → Option Intent → Intent
or_unknown raw none = proposed "unknown" (("text", raw) ∷ []) "normal"
or_unknown raw (some i) = i

-- `_cautious`
abbrev cautious : String → String
cautious t =
    if any (λ w. is_substring w t) ("careful" ∷ "carefully" ∷ "slow" ∷ "slowly" ∷ "cautious" ∷ [])
    then "cautious"
    else "normal"

module _ (py : Texts) where
  abbrev normal : String → String
  normal text = py.rstrip ".!" (py.lower (py.strip text))

  unfoldable pub is_affirmative : String → Bool
  is_affirmative text = contains (normal text) affirm

  unfoldable pub is_negative : String → Bool
  is_negative text = contains (normal text) negative

  abbrev without_article : String → String
  without_article s =
      if py.starts_with "the " (py.lower s)
      then py.drop 4 s
      else if py.starts_with "a " (py.lower s)
      then py.drop 2 s
      else if py.starts_with "an " (py.lower s)
      then py.drop 3 s
      else s

  -- `_clean`
  abbrev clean : String → String
  clean s = without_article (py.strip (py.rstrip " .?!," (py.strip s)))

  abbrev found : String → String → Bool
  found pattern t = is_some (py.search pattern t)

  -- The commands that are always available, which are tried first.
  unfoldable pub safety_command : String → Option Intent
  safety_command t =
      if is_substring "emergency stop" t || contains t ("e-stop" ∷ "estop" ∷ "kill power" ∷ [])
      then some (plain "motion.emergency_stop")
      else if found "\\b(silence|be quiet|stop talking|shush)\\b" t
      then some (plain "voice.silence")
      else if is_some (py.full_match "(stop|halt|freeze|stop moving|stop now)\\.?" t)
      then some (plain "motion.stop")
      else if found "\\b(cancel|abort)\\b.*\\b(task|it|that|action)?\\b" t
          && not (is_substring "don't" t)
      then some (plain "task.cancel")
      else if found "\\b(shut ?down|power off|turn off)\\b" t
      then some (plain "system.shutdown")
      else if found "\\b(reboot|restart)\\b" t
      then some (plain "system.request_reboot")
      else if found "\\b(safe idle|stand down|return to idle|safe mode)\\b" t
      then some (plain "robot.return_safe_idle")
      else none

  -- information and conversation
  unfoldable question : String → Option Intent
  question t =
      if found "\\b(battery|charge level|power level|how much (power|charge))\\b" t
      then some (plain "robot.get_battery")
      else if found "\\b(temperature|how hot|motor temp|too hot|overheat)\\b" t
      then some (plain "robot.get_temperature")
      else if found
          "\\b(what('| i)?s wrong|any (faults|problems)|report (active )?faults|diagnostics?|health)\\b"
          t
      then some (plain "diagnostics.summary")
      else if found "\\b(current task|what are you doing|report (current )?task)\\b" t
      then some (proposed "robot.explain" (("topic", "current_task") ∷ []) "normal")
      else if found "\\bwhy\\b" t && found "\\b(can'?t|cannot|stop|stopped|disabled|inhibit|fail)" t
      then some (proposed "robot.explain" (("topic", "why") ∷ []) "normal")
      else if found "\\b(help|what can you do|commands)\\b" t
      then some (plain "help")
      else if found
          "\\b(what (can|do) you see|describe (the )?(scene|room|surroundings)|look around)\\b" t
      then some (plain "perception.describe_scene")
      else if found "\\b(list|known|what) (places|destinations|rooms)\\b" t
          || is_substring "where can you go" t
      then some (plain "navigation.list_places")
      else if found "\\b(status|how are you|report status|are you (ok|safe))\\b" t
      then some (plain "robot.get_status")
      else none

  abbrev forgotten : Option (List String) → Option Intent
  forgotten none = none
  forgotten (some m) = some (proposed "memory.forget" (("query", clean (group1 m)) ∷ []) "normal")

  abbrev noted : Option (List String) → Option Intent
  noted none = none
  noted (some m) =
      some
        (proposed "memory.remember" (("text", py.rstrip " ." (py.strip (group1 m))) ∷ []) "normal")

  abbrev visited : String → Option (List String) → Option Intent
  visited t none = none
  visited t (some m) = some (
      proposed "inspect.named_target"
        (("destination", clean (group1 m)) ∷ ("target", clean (group2 m)) ∷ []) (cautious t))

  abbrev looked : String → Option (List String) → Option Intent
  looked t none = none
  looked t (some m) =
      some (proposed "inspect.named_target" (("target", clean (group1 m)) ∷ []) (cautious t))

  abbrev went : String → Option (List String) → Option Intent
  went t none = none
  went t (some m) =
      some (proposed "navigation.navigate_to" (("destination", clean (group1 m)) ∷ []) (cautious t))

  -- the memory
  unfoldable memory_command : String → String → Option Intent
  memory_command raw t =
      or_else (forgotten (py.match_start "(?:please )?forget (?:about )?(.+)" t))
        (noted (py.match_any_case "(?:please )?remember (?:that )?(.+)" raw))

  -- charging, and the stairs
  abbrev charge_or_stairs : String → Option Intent
  charge_or_stairs t =
      if found "\\b(charg(e|ing)|dock)\\b" t && found "\\b(go|return|navigate|to)\\b" t
      then some (proposed "navigation.go_charge" [] (cautious t))
      else if found "\\b(walk|climb)\\b.*\\b(stairs|upstairs)\\b" t
      then some (proposed "navigation.navigate_to" (("destination", "stairs") ∷ []) "normal")
      else none

  -- inspection, charging and navigation
  unfoldable motion_command : String → Option Intent
  motion_command t =
      or_else
        (visited t (
          py.search
            "(?:go to|navigate to|walk to|drive to) (?:the )?(.+?) and (?:inspect|look at|check) (?:the )?(.+)"
            t))
        (or_else (looked t (py.match_start "(?:inspect|look at|check) (?:the )?(.+)" t)) (
          or_else (charge_or_stairs t) (
            went t (
              py.match_start
                "(?:please )?(?:go|navigate|walk|drive|move|proceed|head)(?: to| toward| towards| back to)? (?:the )?(.+)"
                t))))

  unfoldable pub parse : String → Intent
  unfolding safety_command question memory_command motion_command
  parse text =
      let raw = py.strip text in
      let t = join " " (py.split (py.lower raw)) in
      or_unknown raw (
        or_else (safety_command t)
          (or_else (question t) (or_else (memory_command raw t) (motion_command t))))
