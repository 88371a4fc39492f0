-- ===== src/Services/Voice.antt =====
-- `src/droidos/services/voice.py`: from a heard text to what is done and said. The engine, and
-- removing a word by a regular expression, are arguments.
pub mod Urgent
mod Examples
use droid_os.Prelude.{
  ℕ, suc, String, Bool, true, false, not, ◌&&◌, ◌||◌, Option, none, some, List, [], ◌∷◌, ◌++◌, any,
  map, join, is_some, is_substring, or_text, str_eq, Result, ok, err, if◌then◌else◌,
}
use droid_os.Services.SafetyGateway
use droid_os.System.{has, has_backend}
use droid_os.Language.Offline.{Texts}
use droid_os.Executive.Droid.{Droid, gateway, with_gateway}
use droid_os.Language.Service.{LanguageService, Response, Wording, Around, process}

pub data Emergency : Type 0 where
  emergency_stop stop : Emergency

-- What is said: a text of the pipeline, or the wording of a response.
pub data Said (C : Type 0) : Type 0 where
  text : String → Said C
  response : Wording C → Said C

pub record VoiceResult (C : Type 0) : Type 0 where
  pub heard : String
  pub woke : Bool
  pub emergency : Option Emergency
  pub speaker : String
  pub response : Said C

-- The service, with the language service that it calls; `spoken` is what the engine was given to say.
pub record Voice (C : Type 0) : Type 0 where
  pub language : LanguageService C
  pub wake_names : List String
  pub require_wake : Bool
  pub default_user : Option String
  pub speaking : Bool
  pub spoken : List (Said C)

-- What the engine and Python answer while one utterance is handled.
pub record Hearing (C P : Type 0) : Type 0 where
  pub around : Around C P
  pub identify : String → Option String
  pub remove_word : (word s : String) → String  -- `re.sub(rf"\b{word}\b", "", s)`, in any case
  pub strip_marks : String → String  -- `s.strip(",.")`

-- the wake names, in lower case
unfoldable pub lowered : Texts → List String → List String
lowered py names = map (λ w. py.lower w) names

unfoldable pub detect_emergency : Texts → String → Option Emergency
detect_emergency py s =
    let t = join " " (py.split (py.lower s)) in
    if is_some (py.search "\\b(emergency stop|e-?stop|kill power|kill it)\\b" t)
    then some emergency_stop
    else if is_some (py.search "\\b(stop|halt|freeze|whoa|abort)\\b" t)
    then some stop
    else none

-- an argument, or what the engine answers: a text that is not empty, or nothing
abbrev named : Option String → Option String
named none = none
named (some s) = if str_eq s "" then none else some s

abbrev or_named : Option String → String → String
or_named none d = d
or_named (some s) d = s

module _ {C : Type 0} where
  unfoldable pub has_wake_word : Texts → String → Voice C → Bool
  has_wake_word py s v = any (λ w. is_substring w (py.lower s)) v.wake_names

  unfoldable pub speak : Said C → Voice C → Voice C
  speak said v = record v { spoken = v.spoken ++ said ∷ []; speaking = false }

  abbrev result : String → Bool → Option Emergency → String → Said C → VoiceResult C
  result heard woke emergency speaker said = record {
    heard = heard;
    woke = woke;
    emergency = emergency;
    speaker = speaker;
    response = said;
  }

  abbrev pub with_droid : Droid C → Voice C → Voice C
  with_droid d v = record v { language = record v.language { droid = d } }

  -- `if rt.motion: rt.motion.stop()`
  abbrev halted : Droid C → Droid C
  halted d =
      if has d.sup.rt "motion" && has_backend d.sup.rt
      then record d { zero_commands = suc d.zero_commands }
      else d

  -- the response of the language service is said
  abbrev responded :
      String
      → String
      → Voice C
      → LanguageService C × Result String (Response C)
      → Voice C × Result String (VoiceResult C)
  responded heard speaker v (l, err e) = (record v { language = l }, err e)
  responded heard speaker v (l, ok r) = (
    speak (response r.text) (record v { language = l }),
    ok (result heard true none speaker (response r.text)),
  )

module _ {C P : Type 0} where
  unfoldable pub identify_speaker : Hearing C P → String → Voice C → String
  identify_speaker h s v = or_named (named (h.identify s)) (or_text v.default_user "operator")

  abbrev without_words : Hearing C P → List String → String → String
  without_words h [] s = s
  without_words h (w ∷ ws) s = without_words h ws (h.remove_word w s)

  unfoldable pub strip_wake_word : Hearing C P → String → Voice C → String
  strip_wake_word h s v = h.strip_marks (without_words h v.wake_names s)

  -- what is no emergency
  abbrev routed : Hearing C P → String → String → Voice C → Voice C × Result String (VoiceResult C)
  routed h s speaker v =
      if v.require_wake && not (has_wake_word h.around.py s v)
      then (v, ok (result s false none speaker (text "")))
      else responded s speaker v (
          process h.around (if v.require_wake then strip_wake_word h s v else s) (some speaker)
            false none v.language)

  abbrev handled :
      Hearing C P
      → String
      → String
      → Voice C
      → Option Emergency
      → Voice C × Result String (VoiceResult C)
  handled h s speaker v (some emergency_stop) =
      let d = v.language.droid in
      let said = text "Emergency stop engaged. Motor power removed." in
      if d.sup.rt.has_safety
      then (
        speak said (
            with_droid
              (with_gateway
                (SafetyGateway.engage_estop h.around.world.times.now "voice_emergency" (gateway d))
                d)
              v),
        ok (result s true (some emergency_stop) speaker said),
      )
      else (v, err "AttributeError")
  handled h s speaker v (some stop) = (
    speak (text "Stopped.") (with_droid (halted v.language.droid) v),
    ok (result s true (some stop) speaker (text "Stopped.")),
  )
  handled h s speaker v none = routed h s speaker v

  unfoldable pub handle_utterance :
      Hearing C P → String → Option String → Voice C → Voice C × Result String (VoiceResult C)
  unfolding detect_emergency identify_speaker has_wake_word strip_wake_word speak
  handle_utterance h s user v =
      handled h s (or_named (named user) (identify_speaker h s v)) v
        (detect_emergency h.around.py s)
