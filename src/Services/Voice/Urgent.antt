-- ===== src/Services/Voice/Urgent.antt =====
-- What the voice pipeline does without the language service, and what it never does.
use droid_os.Prelude.{
  Bool, is_some, join, inl, inr, String, ◌≡◌, refl, if-elim, true, false, not, ◌&&◌, Option, none,
  some, [], ◌∷◌, ◌++◌, subst, sym, arith, Result, ok, err,
}
use droid_os.Core.States.{emergency_stopped}
use droid_os.Services.SafetyGateway.Stop.{IsStopped, engage_estop_effect}
use droid_os.Language.Tools.{registry_of}
use droid_os.Language.Tools.Defaults.{default_tools}
use droid_os.Language.Service.{LanguageService, Response, process}
use droid_os.Language.Service.Guards.{idle, ran, is_privileged, process-Guarded}
use droid_os.Executive.Tasks.{Task}
use droid_os.Executive.Droid.{Droid, gateway}
use droid_os.Language.Offline.{Texts}
use droid_os.Services.Voice.{
  Voice, VoiceResult, Hearing, Emergency, emergency_stop, stop, detect_emergency, handle_utterance,
  handled, routed, responded, has_wake_word, speak, halted, or_named, named, identify_speaker,
}

-- The executive has run nothing, or one task whose tool is not administrative.
pub data Unprivileged {C : Type 0} (s s' : LanguageService C) : Type 0 where
  kept : s'.droid.history ≡ s.droid.history → Unprivileged s s'
  did :
      (t : Task)
      → s'.droid.history ≡ s.droid.history ++ t ∷ []
      → is_privileged s.registry t.intent ≡ false
      → Unprivileged s s'

-- the words of an emergency stop
abbrev pub is_urgent : Texts → String → Bool
is_urgent py s = is_some (
    py.search "\\b(emergency stop|e-?stop|kill power|kill it)\\b"
      (join " " (py.split (py.lower s))))

urgent-detected :
    (py : Texts) (s : String) → is_urgent py s ≡ true → detect_emergency py s ≡ some emergency_stop
unfolding detect_emergency
urgent-detected py s h = ground (arith, h)

-- The droid is stopped, and the language service has neither been asked nor run anything.
abbrev pub Halts : {C : Type 0} → Voice C → Voice C → Type 0
Halts v v' =
    IsStopped (gateway v'.language.droid)
    × ((gateway v'.language.droid).machine.state ≡ emergency_stopped)
    × (v'.language.events ≡ v.language.events)
    × (v'.language.droid.history ≡ v.language.droid.history)

halted-history : {C : Type 0} → (d : Droid C) → (halted d).history ≡ d.history
halted-history d = ground (arith)

responded-Unprivileged :
    {C : Type 0}
    → (s speaker : String) (v : Voice C) (x : LanguageService C × Result String (Response C))
    → Unprivileged v.language x.0
    → Unprivileged v.language (responded s speaker v x).0.language
unfolding speak
responded-Unprivileged s speaker v (l, err e) p = p
responded-Unprivileged s speaker v (l, ok r) p = p

module _ {C P : Type 0} where
  Guarded-Unprivileged :
      (h : Hearing C P) (s : String) (name : Option String) (l : LanguageService C)
      → l.registry ≡ registry_of default_tools []
      → Unprivileged l (process h.around s name false none l).0
  Guarded-Unprivileged h s name l r = elim (process-Guarded h.around s name false none l r) [
    | idle e ↦ kept e
    | ran t e n (inl ordinary) ↦ did t e ordinary
    | ran t e n (inr (o, agreed)) ↦ absurd (ground (arith, agreed))
  ]

  routed-Unprivileged :
      (h : Hearing C P) (s speaker : String) (v : Voice C)
      → v.language.registry ≡ registry_of default_tools []
      → Unprivileged v.language (routed h s speaker v).0.language
  routed-Unprivileged h s speaker v r =
      if-elim
        (λ (x : Voice C × Result String (VoiceResult C)). Unprivileged v.language x.0.language)
        (v.require_wake && not (has_wake_word h.around.py s v)) (λ _. kept refl)
        (λ _.
          responded-Unprivileged s speaker v _
            (Guarded-Unprivileged h _ (some speaker) v.language r))

  handled-Unprivileged :
      (h : Hearing C P) (s speaker : String) (v : Voice C) (e : Option Emergency)
      → v.language.registry ≡ registry_of default_tools []
      → Unprivileged v.language (handled h s speaker v e).0.language
  unfolding speak
  handled-Unprivileged h s speaker v (some emergency_stop) r =
      if-elim
        (λ (x : Voice C × Result String (VoiceResult C)). Unprivileged v.language x.0.language)
        v.language.droid.sup.rt.has_safety (λ _. kept refl) (λ _. kept refl)
  handled-Unprivileged h s speaker v (some stop) r = kept (halted-history v.language.droid)
  handled-Unprivileged h s speaker v none r = routed-Unprivileged h s speaker v r

  -- Whatever is said, by whomever, and whatever the models answer, one utterance runs at most one
  -- task, and none whose tool is administrative, with the default registry.
  pub handle_utterance-Unprivileged :
      (h : Hearing C P) (s : String) (user : Option String) (v : Voice C)
      → v.language.registry ≡ registry_of default_tools []
      → Unprivileged v.language (handle_utterance h s user v).0.language
  unfolding handle_utterance
  handle_utterance-Unprivileged h s user v r =
      handled-Unprivileged h s _ v (detect_emergency h.around.py s) r

  estop-Halts :
      (h : Hearing C P) (s speaker : String) (v : Voice C)
      → v.language.droid.sup.rt.has_safety ≡ true
      → Halts v (handled h s speaker v (some emergency_stop)).0
  unfolding speak
  estop-Halts h s speaker v safe =
      let (held, _, state, _, _) =
        engage_estop_effect h.around.world.times.now "voice_emergency" (gateway v.language.droid) in
      if-elim (λ (x : Voice C × Result String (VoiceResult C)). Halts v x.0)
        v.language.droid.sup.rt.has_safety (λ _. (held, state, refl, refl))
        (λ n. absurd (ground (arith, safe, n)))

  -- An utterance with words of an emergency stop engages the stop, whoever says it, awake or not,
  -- where there is a safety service: motor power is cut, the droid is EMERGENCY_STOPPED, and the
  -- language service has not been asked.
  pub urgent_words_stop :
      (h : Hearing C P) (s : String) (user : Option String) (v : Voice C)
      → is_urgent h.around.py s ≡ true
      → v.language.droid.sup.rt.has_safety ≡ true
      → Halts v (handle_utterance h s user v).0
  unfolding handle_utterance
  urgent_words_stop h s user v e safe =
      let speaker = or_named (named user) (identify_speaker h s v) in
      subst (λ o. Halts v (handled h s speaker v o).0) (sym (urgent-detected h.around.py s e))
        (estop-Halts h s speaker v safe)
