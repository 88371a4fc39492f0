-- ===== src/Services/Supervisor/Readiness/Clear.antt =====
-- When the assessment permits motion.
use droid_os.Prelude.{
  ℕ, String, ◌≡◌, refl, ap, ◌∙◌, Bool, true, false, not, ◌&&◌, Option, none, some, List, [], ◌∷◌,
  is_nil, leb, contains, str_eq, any, arith, if◌then◌else◌, is_nil-append, is_nil-collect,
  Bool-cases, inl, inr,
}
use droid_os.Core.States.{
  ready, degraded, motion_inhibited, emergency_stopped, same_state, among, motion_allowed_from,
}
use droid_os.System.{Body, Readings, Runtime, has_backend}
use droid_os.Services.Supervisor.Readiness.{
  Inhibit, Degraded, motion_critical, stopped, unhealthy, inactive, is_fatal, backend_inhibits,
  body_inhibits, is_lost, body_degrades, inhibits, degrades, decide_readiness, assess_readiness,
}

-- The hardware is fit to move: the battery has the body's minimum, every required actuator is there,
-- every required sensor responds, no actuator has a fault, and the bus is not offline.
abbrev pub hardware_fit : Body → Readings → Bool
hardware_fit b r =
    leb b.battery_motion_minimum r.battery_percent
    && not (any (λ a. not (contains a r.actuator_names)) b.required_actuators)
    && not (any (λ s. not (r.sensor_ok s)) b.required_sensors)
    && not (any (λ (f : String × String). not (str_eq f.1 "")) r.fault_codes)
    && (elim r.bus_online [ none ↦ true | some online ↦ online ])

abbrev pub body_fit : Bool → Readings → Option Body → Bool
body_fit backend r none = true
body_fit backend r (some b) =
    not (any is_fatal b.issues) && (if backend then hardware_fit b r else true)

-- Every motion-critical service is active, the body has no fatal issue, and its hardware is fit.
abbrev pub clear : Runtime → Bool
clear rt = not (any (inactive rt) motion_critical) && body_fit (has_backend rt) rt.readings rt.body

backend_inhibits-nil : (b : Body) (r : Readings) → is_nil (backend_inhibits b r) ≡ hardware_fit b r
unfolding backend_inhibits
backend_inhibits-nil b r = simp (is_nil-append, is_nil-collect) (ground arith)

body_inhibits-nil :
    (backend : Bool) (r : Readings) (b : Option Body)
    → is_nil (body_inhibits backend r b) ≡ body_fit backend r b
body_inhibits-nil backend r none = refl
body_inhibits-nil true r (some b) = simp (is_nil-append, is_nil-collect, backend_inhibits-nil)
body_inhibits-nil false r (some b) = simp (is_nil-append, is_nil-collect)

inhibits-nil :
    (rt : Runtime) (unwell : Bool) → is_nil (inhibits rt unwell) ≡ (not unwell && clear rt)
unfolding inhibits
inhibits-nil rt true = refl
inhibits-nil rt false = simp (is_nil-append, is_nil-collect, body_inhibits-nil)

-- An optional sensor of the body does not respond.
abbrev pub sensor_lost : Bool → Readings → Option Body → Bool
sensor_lost backend r none = false
sensor_lost backend r (some b) = if backend then any (is_lost b r) b.sensors else false

abbrev pub is_impaired : Runtime → Bool
is_impaired rt = sensor_lost (has_backend rt) rt.readings rt.body

body_degrades-nil :
    (backend : Bool) (r : Readings) (b : Option Body)
    → is_nil (body_degrades backend r b) ≡ not (sensor_lost backend r b)
body_degrades-nil backend r none = refl
body_degrades-nil true r (some b) = is_nil-collect _ _ b.sensors
body_degrades-nil false r (some b) = refl

degrades-nil : (rt : Runtime) → is_nil (degrades rt) ≡ not (is_impaired rt)
unfolding degrades
degrades-nil rt = body_degrades-nil (has_backend rt) rt.readings rt.body

decide_state :
    (is : List Inhibit) (ds : List Degraded)
    → (decide_readiness is ds).state
      ≡ (if is_nil is then (if is_nil ds then ready else degraded) else motion_inhibited)
decide_state [] [] = refl
decide_state [] (d ∷ ds) = refl
decide_state (i ∷ is) ds = refl

-- The assessment is EMERGENCY_STOPPED when the gateway reports a stop; else MOTION_INHIBITED unless
-- the safety controller is healthy, every motion-critical service is active, and the body and
-- its hardware are fit; else DEGRADED when an optional sensor is lost, and READY when none is.
pub assessed_state :
    (first beat now : ℕ) (rt : Runtime)
    → let (rt', halted) = stopped first rt in
      let (rt'', unwell) = unhealthy beat now rt' in
      (assess_readiness first beat now rt).1.state ≡ (
        if halted
        then emergency_stopped
        else if not unwell && clear rt''
        then (if not (is_impaired rt'') then ready else degraded)
        else motion_inhibited)
unfolding assess_readiness
assessed_state first beat now rt =
    let (rt', halted) = stopped first rt in
    let (rt'', unwell) = unhealthy beat now rt' in
    elim (Bool-cases halted) [
      | inl yes_halted ↦ rw yes_halted
      | inr not_halted ↦ rw not_halted (rw (decide_state, inhibits-nil, degrades-nil))
    ]

permits :
    (halted unwell clear lost : Bool)
    → among
        (if halted
          then emergency_stopped
          else if not unwell && clear
          then (if not lost then ready else degraded)
          else motion_inhibited)
        motion_allowed_from
      ≡ (not halted && (not unwell && clear))
unfolding among same_state
permits true unwell c l = refl
permits false true c l = refl
permits false false false l = refl
permits false false true true = refl
permits false false true false = refl

-- The assessed state permits motion exactly when the gateway reports no stop, the safety controller
-- is healthy, every motion-critical service is active, and the body and its hardware are fit.
pub assessed_motion :
    (first beat now : ℕ) (rt : Runtime)
    → let (rt', halted) = stopped first rt in
      let (rt'', unwell) = unhealthy beat now rt' in
      among (assess_readiness first beat now rt).1.state motion_allowed_from
      ≡ (not halted && (not unwell && clear rt''))
assessed_motion first beat now rt =
    let (rt', halted) = stopped first rt in
    let (rt'', unwell) = unhealthy beat now rt' in
    ap (λ s. among s motion_allowed_from) (assessed_state first beat now rt)
    ∙ permits halted unwell (clear rt'') (is_impaired rt'')
