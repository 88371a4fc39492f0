-- ===== src/Services/Supervisor/Boot/Outcome.antt =====
-- How a boot and a refresh end.
use droid_os.Prelude.{
  if-true, if-false, ℕ, ◌<◌, String, ◌≡◌, refl, sym, ◌∙◌, ap, Bool, true, false, ◌||◌, [], ◌∷◌,
  arith, if◌then◌else◌, Result, ok, err, Bool-cases, inl, inr,
}
use droid_os.Core.States.{
  DroidState, StateMachine, illegal, same_state, transition, among, transitions, value, booting,
  hardware_check, safe_idle, motion_inhibited, motion_permitted, emergency_stopped,
}
use droid_os.Backends.SafetyController
use droid_os.Services.Lifecycle.{same}
use droid_os.Services.SafetyGateway
use droid_os.System.{Runtime}
use droid_os.Services.Supervisor.Readiness.{
  Readiness, assess_readiness, stopped, unhealthy, gateway_missing,
}
use droid_os.Services.Supervisor.Readiness.Settle.{settle_reaches}
use droid_os.Services.Supervisor.Activation.{Fault, illegal_move, activate_named}
use droid_os.Services.Supervisor.Activation.Terminates.{
  is_engaged, IsRanked, Follows, Follows-trans, activate_named-Follows,
}
use droid_os.Services.Supervisor.Boot.{
  Supervisor, Clocks, activation_order, move_to, report_body, connect_backend, settle_assessed,
  boot_without_safety, boot_with_safety, contact_safety, boot, refresh, report, step, first_steps,
}
use droid_os.Services.Supervisor.Boot.Steps.{
  is_stopping, Keeps, keep_of, Keeps-trans, state_of, move_from, may_go, report_body-rt, Follows-eq,
  connect_backend-Follows, start_services-ends, IsRanked-Keeps,
}

activate_stopping :
    (now : ℕ) (rt : Runtime)
    → is_stopping rt ≡ true
    → is_engaged (activate_named now "safety_gateway" rt).0 ≡ true
unfolding activate_named same SafetyGateway.on_activate SafetyGateway.on_configure
    SafetyGateway.load_latch SafetyController.disable_power SafetyController.engage_estop
activate_stopping now rt h = ground (arith, h)

-- An engaged stop is what the assessment finds.
assessed_stop :
    (first beat now : ℕ) (rt : Runtime)
    → rt.has_safety ≡ true
    → is_engaged rt ≡ true
    → (assess_readiness first beat now rt).1.state ≡ emergency_stopped
unfolding assess_readiness stopped SafetyGateway.estop_engaged_now SafetyController.status
    SafetyController.check_watchdog
assessed_stop first beat now rt w h = ground (arith, w, h)

assess_engaged :
    (first beat now : ℕ) (rt : Runtime)
    → is_engaged rt ≡ true
    → is_engaged (assess_readiness first beat now rt).0 ≡ true
unfolding assess_readiness stopped unhealthy SafetyGateway.healthy SafetyGateway.status
    SafetyGateway.estop_engaged_now SafetyController.status SafetyController.check_watchdog
assess_engaged first beat now rt h = ground (arith, h)

settle_assessed-settles :
    (s : Supervisor) (a : Runtime × Readiness)
    → (s' : Supervisor) × (settle_assessed s a ≡ ok s')
      × (state_of s' ≡ a.1.state)
      × (s'.readiness ≡ a.1)
      × (is_engaged s'.rt ≡ is_engaged a.0)
unfolding settle_assessed
settle_assessed-settles s (rt, r) =
    let (m, e, st) = settle_reaches r.state rt.gateway.machine in
    (
      record s { rt = record rt { gateway = record rt.gateway { machine = m } }; readiness = r },
      rw e,
      st,
      refl,
      refl,
    )

-- A refresh never raises; afterwards the machine is in the state that was assessed.
pub refresh_settles :
    (first beat now : ℕ) (s : Supervisor)
    → (s' : Supervisor) × (refresh first beat now s ≡ ok s')
      × (s'.rt.gateway.machine.state ≡ s'.readiness.state)
      × (s'.readiness ≡ (assess_readiness first beat now s.rt).1)
unfolding refresh
refresh_settles first beat now s =
    let (s', e, st, r, _) = settle_assessed-settles s (assess_readiness first beat now s.rt) in
    (s', e, st ∙ ap (λ x. x.state) (sym r), r)

booting_to_check : may_go booting hardware_check ≡ true
unfolding may_go
booting_to_check = refl

check_to_idle : may_go hardware_check safe_idle ≡ true
unfolding may_go
check_to_idle = refl

module _ (rank : String → ℕ) (depth : ℕ) (bounded : (n : String) → rank n < depth) where
  abbrev BootEnds : Clocks → Supervisor → Result Fault Supervisor → Type 0
  BootEnds t s r =
      (s' : Supervisor) × (r ≡ ok s')
      × (s'.rt.gateway.machine.state ≡ s'.readiness.state)
      × ((rt : Runtime) × Keeps s.rt rt
          × (is_stopping s.rt ≡ true → is_engaged rt ≡ true)
          × (is_stopping s.rt ≡ true → is_engaged s'.rt ≡ true)
          × (s'.readiness ≡ (assess_readiness t.first t.beat t.health rt).1))

  boot_with_safety-ends :
      (t : Clocks) (s : Supervisor)
      → state_of s ≡ booting
      → IsRanked rank s.rt
      → BootEnds t s (boot_with_safety depth t s)
  boot_with_safety-ends t s st h =
      let contacted = contact_safety s (activate_named t.safety "safety_gateway" s.rt) in
      let f₀ : Follows s.rt contacted.rt = activate_named-Follows t.safety "safety_gateway" s.rt in
      let (s₁, e₁, st₁, k₁, same₁) =
        move_from booting hardware_check "safety contacted" contacted
          (ap (λ m. m.state) f₀.machine ∙ st) booting_to_check in
      let k₁' : Keeps s.rt s₁.rt = Keeps-trans (keep_of f₀) k₁ in
      let reported = report_body s₁.rt.body s₁ in
      let f₂ : Follows s₁.rt (connect_backend reported).rt =
        Follows-trans (Follows-eq (report_body-rt s₁.rt.body s₁))
          (connect_backend-Follows reported) in
      let k₂ : Keeps s.rt (connect_backend reported).rt = Keeps-trans k₁' (keep_of f₂) in
      let (s₂, e₂, f₃) =
        start_services-ends rank depth bounded t.services activation_order
          (connect_backend reported) (IsRanked-Keeps rank depth bounded k₂ h) in
      let f₄ = Follows-trans f₂ f₃ in
      let (s₃, e₃, st₃, k₃, same₃) =
        move_from hardware_check safe_idle "boot checks complete" s₂
          (ap (λ m. m.state) f₄.machine ∙ st₁) check_to_idle in
      let s₄ = report (step "enter_safe_idle" true "") s₃ in
      let (s₅, e₅, st₅, r₅, on₅) =
        settle_assessed-settles s₄ (assess_readiness t.first t.beat t.health s₄.rt) in
      let engaged = λ (h : is_stopping s.rt ≡ true).
        k₃.stop (f₃.stop (f₂.stop (k₁.stop (activate_stopping t.safety s.rt h)))) in
      (
        report (step "assess_readiness" true (value s₅.readiness.state)) s₅,
        rw e₁ (rw e₂ (rw e₃ (rw e₅))),
        st₅ ∙ ap (λ r. r.state) (sym r₅),
        (
          s₃.rt,
          Keeps-trans k₂ (Keeps-trans (keep_of f₃) k₃),
          engaged,
          λ h. on₅ ∙ assess_engaged t.first t.beat t.health s₃.rt (engaged h),
          r₅,
        ),
      )

  with_safety :
      (t : Clocks) (s s₁ : Supervisor)
      → s.rt.has_safety ≡ true
      → state_of s₁ ≡ booting
      → Keeps s.rt s₁.rt
      → is_stopping s₁.rt ≡ is_stopping s.rt
      → IsRanked rank s.rt
      → BootEnds t s (
          if s.rt.has_safety
          then boot_with_safety depth t (record s₁ { boot_report = first_steps })
          else boot_without_safety (record s₁ { boot_report = first_steps }))
  with_safety t s s₁ w st k same_stop h =
      let (s', e, eq, (rt, k', engaged, kept, r)) =
        boot_with_safety-ends t (record s₁ { boot_report = first_steps }) st
          (IsRanked-Keeps rank depth bounded k h) in
      (
        s',
        if-true _ _ w ∙ e,
        eq,
        (rt, Keeps-trans k k', λ on. engaged (same_stop ∙ on), λ on. kept (same_stop ∙ on), r),
      )

  -- A boot from POWERED_OFF or BOOTING with a safety gateway, where the services' requirements have
  -- no cycle and the recursion limit is above every rank, raises nothing. It ends in the state that
  -- it assessed, of a runtime with the body, the hardware readings and the requirements it began
  -- with.
  pub boot_settles :
      (t : Clocks) (s : Supervisor)
      → may_go (state_of s) booting ≡ true
      → s.rt.has_safety ≡ true
      → IsRanked rank s.rt
      → BootEnds t s (boot depth t s)
  unfolding boot
  boot_settles t s from w h =
      let (s₁, e₁, st₁, k₁, same₁) =
        move_from (state_of s) booting "boot start" (record s { boot_report = [] }) refl from in
      let (s', e, eq, rest) = with_safety t s s₁ w st₁ k₁ same₁ h in (s', rw e₁ e, eq, rest)

  -- A boot from POWERED_OFF or BOOTING with a safety gateway, where the services' requirements have no
  -- cycle and the recursion limit is above every rank, of a droid whose emergency stop is engaged at
  -- the controller, or is in the latch file that the gateway is yet to read, returns: the stop is
  -- engaged, the state is EMERGENCY_STOPPED, and motion is not permitted.
  pub boot_keeps_stop :
      (t : Clocks) (s : Supervisor)
      → may_go (state_of s) booting ≡ true
      → s.rt.has_safety ≡ true
      → IsRanked rank s.rt
      → is_stopping s.rt ≡ true
      → (s' : Supervisor) × (boot depth t s ≡ ok s')
        × (is_engaged s'.rt ≡ true)
        × (state_of s' ≡ emergency_stopped)
        × (motion_permitted s'.rt.gateway.machine ≡ false)
  unfolding motion_permitted among same_state
  boot_keeps_stop t s from w h stopping =
      let (s', e, eq, (rt, k, engaged, kept, r)) = boot_settles t s from w h in
      let halted = assessed_stop t.first t.beat t.health rt (k.safety ∙ w) (engaged stopping) in
      let st = eq ∙ ap (λ x. x.state) r ∙ halted in (s', e, kept stopping, st, rw st refl)

or_false_left : (a b : Bool) → (a || b) ≡ false → a ≡ false
or_false_left a b h = ground arith

or_false_right : (a b : Bool) → (a || b) ≡ false → b ≡ false
or_false_right a b h = ground arith

transition_refused :
    (dst : DroidState) (reason : String) (m : StateMachine)
    → may_go m.state dst ≡ false
    → transition m dst reason ≡ err (illegal m.state dst)
unfolding transition may_go
transition_refused dst reason m h = elim (Bool-cases (same_state dst m.state)) [
  | inl same ↦
      absurd (cc (same, or_false_left (same_state dst m.state) (among dst (transitions m.state)) h))
  | inr other ↦
      rw (other, or_false_right (same_state dst m.state) (among dst (transitions m.state)) h)
]

-- A boot from a state other than POWERED_OFF and BOOTING raises InvalidTransition.
pub boot_refused :
    (depth : ℕ) (t : Clocks) (s : Supervisor)
    → may_go (state_of s) booting ≡ false
    → boot depth t s ≡ err (illegal_move (illegal (state_of s) booting))
unfolding boot move_to
boot_refused depth t s h = rw (transition_refused booting "boot start" s.rt.gateway.machine h)

check_to_inhibited : may_go hardware_check motion_inhibited ≡ true
unfolding may_go
check_to_inhibited = refl

without_safety-ends :
    (s : Supervisor)
    → state_of s ≡ booting
    → (s' : Supervisor) × (boot_without_safety s ≡ ok s')
      × (state_of s' ≡ motion_inhibited)
      × (s'.readiness.state ≡ motion_inhibited)
without_safety-ends s st =
    let told = report (step "contact_safety_controller" false "no safety gateway") s in
    let (s₂, e₂, st₂, k₂, same₂) = move_from booting hardware_check "" told st booting_to_check in
    let (s₃, e₃, st₃, k₃, same₃) =
      move_from hardware_check motion_inhibited "safety gateway missing" s₂ st₂
        check_to_inhibited in
    (
      record s₃ {
        readiness = record {
          state = motion_inhibited;
          inhibit_reasons = gateway_missing ∷ [];
          degraded_reasons = [];
        };
      },
      rw e₂ (rw e₃),
      st₃,
      refl,
    )

-- A boot from POWERED_OFF or BOOTING without a safety gateway raises nothing and ends in
-- MOTION_INHIBITED.
pub boot_without_safety_inhibits :
    (depth : ℕ) (t : Clocks) (s : Supervisor)
    → may_go (state_of s) booting ≡ true
    → s.rt.has_safety ≡ false
    → (s' : Supervisor) × (boot depth t s ≡ ok s')
      × (s'.rt.gateway.machine.state ≡ motion_inhibited)
      × (s'.readiness.state ≡ motion_inhibited)
unfolding boot
boot_without_safety_inhibits depth t s from w =
    let (s₁, e₁, st₁, k₁, same₁) =
      move_from (state_of s) booting "boot start" (record s { boot_report = [] }) refl from in
    let (s', e, st, r) = without_safety-ends (record s₁ { boot_report = first_steps }) st₁ in
    (s', rw e₁ (if-false _ _ w ∙ e), st, r)
