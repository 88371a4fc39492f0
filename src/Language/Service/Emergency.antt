-- ===== src/Language/Service/Emergency.antt =====
-- Texts that stop the droid, and one that does not.
use droid_os.Prelude.{
  String, ◌≡◌, refl, if-elim, StrMethods, sym, ◌∙◌, ap, subst, Bool, true, false, Option, none,
  some, [], arith, join, contains, is_substring, lookup, insert, Result, ok, err,
}
use droid_os.Core.States.{emergency_stopped}
use droid_os.Services.SafetyGateway.Stop.{IsStopped}
use droid_os.System.{Runtime}
use droid_os.Language.Auth.{User, resolve}
use droid_os.Language.Tools.{ToolSpec, harmless, never, get, registry_of, register}
use droid_os.Language.Tools.Defaults.{default_tools}
use droid_os.Language.Broker.{
  Intent, Outcome, Site, BrokerDecision, approved, validate, validate_tool,
}
use droid_os.Language.Offline.{
  Texts, parse, proposed, safety_command, is_affirmative, is_negative, affirm, negative,
}
use droid_os.Language.Providers.{catalog_names, degraded}
use droid_os.Language.Providers.Proposals.{offline_fallback}
use droid_os.Executive.Droid.{gateway}
use droid_os.Executive.Intents.Stops.{estop_intent_stops}
use droid_os.Language.Service.{
  LanguageService, Response, Around, site_of, answer, execute, dispatch, fresh, process,
  proposed as heard,
}

abbrev estop : Intent
estop = proposed "motion.emergency_stop" [] "normal"

-- the text, as the rules of the offline parser see it
abbrev pub seen : Texts → String → String
seen py text = join " " (py.split (py.lower (py.strip text)))

parse-emergency :
    (py : Texts) (text : String)
    → is_substring "emergency stop" (seen py text) ≡ true
    → parse py text ≡ estop
unfolding parse safety_command
parse-emergency py text h = ground (arith, h)

no_affirmation :
    (py : Texts) (text : String)
    → py.rstrip ".!" (py.lower (py.strip text)) ≡ "stop"
    → is_affirmative py text ≡ false
unfolding is_affirmative
no_affirmation py text h = ap (λ n. contains n affirm) h

stop_is_negative :
    (py : Texts) (text : String)
    → py.rstrip ".!" (py.lower (py.strip text)) ≡ "stop"
    → is_negative py text ≡ true
unfolding is_negative
stop_is_negative py text h = ap (λ n. contains n negative) h

-- the response is that of a success, and the droid is stopped
abbrev pub HasStopped : {C : Type 0} → LanguageService C × Response C → Type 0
HasStopped (s, r) =
    (r.outcome ≡ "approved")
    × IsStopped (gateway s.droid)
    × ((gateway s.droid).machine.state ≡ emergency_stopped)

-- A tool that is always available is approved, and nothing is changed.
always-approved :
    {C : Type 0} (py : StrMethods) (s : Site C) (i : Intent) (u : User) (confirmed : Bool)
    (t : ToolSpec)
    → get s.registry i.intent ≡ some t
    → t.always_available ≡ true
    → ((validate py s i u confirmed).1.outcome ≡ approved)
      × ((validate py s i u confirmed).0 ≡ s.rt)
unfolding validate validate_tool
always-approved py s i u confirmed t e av = ground (arith, e, av)

abbrev estop_tool : ToolSpec
estop_tool = record {
  name = "motion.emergency_stop";
  risk = harmless;
  requires_motion = false;
  required_capability = none;
  confirmation = never;
  min_role_rank = 0;
  always_available = true;
  description = "remove motor power immediately";
}

estop-registered : get (registry_of default_tools []) "motion.emergency_stop" ≡ some estop_tool
unfolding get lookup registry_of register insert default_tools
estop-registered = refl

-- the response "cancelled"
abbrev pub Cancelled : {C : Type 0} → Result String (Response C) → Type 0
Cancelled (err e) = ⊥
Cancelled (ok r) = r.outcome ≡ "cancelled"

-- the service answers with a response that says so, and the droid is stopped
abbrev pub Stopped : {C : Type 0} → LanguageService C × Result String (Response C) → Type 0
Stopped (s, err e) = ⊥
Stopped (s, ok r) = HasStopped (s, r)

module _ {C P : Type 0} where
  execute-estop :
      (a : Around C P) (u : User) (deg : Bool) (decision : BrokerDecision) (s : LanguageService C)
      → s.has_executive ≡ true
      → s.droid.sup.rt.has_safety ≡ true
      → HasStopped (execute a estop u deg decision s)
  execute-estop a u deg decision s e safe =
      let (done, held, state) = estop_intent_stops a.world u.name [] s.droid safe in
      if-elim (λ (x : LanguageService C × Response C). HasStopped x) s.has_executive
        (λ _. (ground (arith, done), held, state)) (λ n. absurd (ground (arith, e, n)))

  answer-estop :
      (a : Around C P) (u : User) (deg : Bool) (decision : BrokerDecision) (o : Outcome)
      (s : LanguageService C)
      → o ≡ approved
      → s.has_executive ≡ true
      → s.droid.sup.rt.has_safety ≡ true
      → HasStopped (answer a estop u deg decision o s)
  answer-estop a u deg decision o s h e safe =
      subst (λ x. HasStopped (answer a estop u deg decision x s)) (sym h)
        (execute-estop a u deg decision s e safe)

  dispatch-estop :
      (a : Around C P) (u : User) (confirmed deg : Bool) (s : LanguageService C)
      → s.registry ≡ registry_of default_tools []
      → s.has_executive ≡ true
      → s.droid.sup.rt.has_safety ≡ true
      → HasStopped (dispatch a estop u confirmed deg s)
  unfolding dispatch
  dispatch-estop a u confirmed deg s r e safe =
      let (allowed, same) =
        always-approved a.world.py (site_of a s) estop u confirmed estop_tool
          (ap (λ x. get x "motion.emergency_stop") r ∙ estop-registered) refl in
      let decision = (validate a.world.py (site_of a s) estop u confirmed).1 in
      answer-estop a u deg decision decision.outcome _ allowed e
        (ap (λ (x : Runtime). x.has_safety) same ∙ safe)

  -- A text with the words "emergency stop" engages the emergency stop, whoever says it and with or
  -- without a confirmation, where no server of a model is reached, nothing is pending, the tools are
  -- the default ones, and there are an executive and a safety service: the service responds with
  -- "approved", motor power is cut, and the droid is EMERGENCY_STOPPED.
  pub emergency_words_stop :
      (a : Around C P) (text : String) (name : Option String) (confirmed : Bool)
      (s : LanguageService C)
      → is_substring "emergency stop" (seen a.py text) ≡ true
      → ((base : String) → a.web.reaches base ≡ false)
      → s.registry ≡ registry_of default_tools []
      → s.has_executive ≡ true
      → s.droid.sup.rt.has_safety ≡ true
      → Stopped (process a text name confirmed none s)
  unfolding process fresh
  emergency_words_stop a text name confirmed s words away r e safe =
      let u = resolve s.users s.default_user name in
      let deg = degraded a.py a.web s.providers in
      subst (λ x. Stopped (heard a text u confirmed deg s x))
        (sym (
          offline_fallback a.py a.web s.providers text (catalog_names s.registry) away
          ∙ ap (λ i. ok i) (parse-emergency a.py text words)))
        (dispatch-estop a u confirmed deg _ r e safe)

  -- A "stop" that answers a pending question is not passed on: the response is "cancelled", and
  -- nothing of the droid has changed.
  pub pending_stop_is_swallowed :
      (a : Around C P) (text : String) (name : Option String) (confirmed : Bool) (i : Intent)
      (s : LanguageService C)
      → a.py.rstrip ".!" (a.py.lower (a.py.strip text)) ≡ "stop"
      → let (s', r) = process a text name confirmed (some i) s in (s' ≡ s) × Cancelled r
  unfolding process
  pending_stop_is_swallowed a text name confirmed i s h =
      if-elim (λ (x : LanguageService C × Result String (Response C)). (x.0 ≡ s) × Cancelled x.1)
        (is_affirmative a.py text) (λ yes. absurd (ground (arith, yes, no_affirmation a.py text h)))
        (λ _.
          if-elim
            (λ (x : LanguageService C × Result String (Response C)). (x.0 ≡ s) × Cancelled x.1)
            (is_negative a.py text) (λ _. (refl, refl))
            (λ n. absurd (ground (arith, n, stop_is_negative a.py text h))))
