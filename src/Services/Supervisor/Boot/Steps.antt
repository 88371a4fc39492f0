-- ===== src/Services/Supervisor/Boot/Steps.antt =====
-- The steps of a boot: each one returns, and keeps what it does not set.
use droid_os.Prelude.{
  ℕ, ◌<◌, String, ◌≡◌, refl, sym, ◌∙◌, Bool, true, false, not, ◌&&◌, ◌||◌, Option, none, some, List,
  [], ◌∷◌, arith, Result, ok, err, Bool-cases, inl, inr, subst, str_eq,
}
use droid_os.Core.States.{
  DroidState, StateMachine, InvalidTransition, same_state, can_transition, transition, among,
  transitions,
}
use droid_os.Services.Lifecycle.{same, unconfigured}
use droid_os.Services.SafetyGateway.{LatchFile, document}
use droid_os.System.{Body, Managed, Runtime, service, has, has_backend}
use droid_os.Core.States.Laws.{same_state_iff}
use droid_os.Services.Supervisor.Readiness.Settle.{can-transition}
use droid_os.Services.Supervisor.Activation.{Fault, requires_of}
use droid_os.Services.Supervisor.Activation.Terminates.{
  is_engaged, IsRanked, Follows, Follows-refl, Follows-trans, activate_with_deps-Ends,
}
use droid_os.Services.Supervisor.Boot.{
  Supervisor, lift_machine, move_to, report_body, report_drivers, connect_backend, record_start,
  start_services,
}

-- The emergency stop is engaged, or is in the latch file of a gateway that is not configured yet.
abbrev is_latched : LatchFile → Bool
is_latched (document estop why) = estop
is_latched _ = false

abbrev is_new : Option Managed → Bool
is_new none = false
is_new (some m) = same m.service.state unconfigured

abbrev pub is_stopping : Runtime → Bool
is_stopping rt =
    is_engaged rt || (is_latched rt.gateway.latch && is_new (service rt "safety_gateway"))

-- What a boot leaves alone besides the machine and the services' states.
pub record Keeps (before after : Runtime) : Type 0 where
  pub stop : is_engaged before ≡ true → is_engaged after ≡ true
  pub requires :
      (name : String) → requires_of (service after name) ≡ requires_of (service before name)
  pub body : after.body ≡ before.body
  pub readings : after.readings ≡ before.readings
  pub safety : after.has_safety ≡ before.has_safety

pub keep_of : {a b : Runtime} → Follows a b → Keeps a b
keep_of f = record {
  stop = f.stop;
  requires = f.requires;
  body = f.body;
  readings = f.readings;
  safety = f.safety;
}

pub Keeps-trans : {a b c : Runtime} → Keeps a b → Keeps b c → Keeps a c
Keeps-trans f g = record {
  stop = λ h. g.stop (f.stop h);
  requires = λ n. g.requires n ∙ f.requires n;
  body = g.body ∙ f.body;
  readings = g.readings ∙ f.readings;
  safety = g.safety ∙ f.safety;
}

abbrev pub state_of : Supervisor → DroidState
state_of s = s.rt.gateway.machine.state

-- The call returns a supervisor in the state `dst`, and keeps the rest.
abbrev pub Arrives : DroidState → Supervisor → Result Fault Supervisor → Type 0
Arrives dst s r =
    (s' : Supervisor) × (r ≡ ok s')
    × (state_of s' ≡ dst)
    × Keeps s.rt s'.rt
    × (is_stopping s'.rt ≡ is_stopping s.rt)

lift_machine-Arrives :
    (dst : DroidState) (s : Supervisor) (r : Result InvalidTransition StateMachine)
    (m : StateMachine)
    → r ≡ ok m
    → m.state ≡ dst
    → Arrives dst s (lift_machine s r)
lift_machine-Arrives dst s (err e) m h st = absurd (cc h)
lift_machine-Arrives dst s (ok m') m h st = (
  record s { rt = record s.rt { gateway = record s.rt.gateway { machine = m' } } },
  refl,
  ground arith,
  record { stop = λ h. h; requires = λ n. refl; body = refl; readings = refl; safety = refl },
  refl,
)

pub transition_to :
    (dst : DroidState) (reason : String) (m : StateMachine)
    → (same_state dst m.state || can_transition m dst) ≡ true
    → (m' : StateMachine) × (transition m dst reason ≡ ok m') × (m'.state ≡ dst)
unfolding transition
transition_to dst reason m h = elim (Bool-cases (same_state dst m.state)) [
  | inl same ↦ (m, rw same, sym (same_state_iff dst m.state same))
  | inr other ↦ can-transition m dst reason other (rw other at h)
]

pub move_to-Arrives :
    (dst : DroidState) (reason : String) (s : Supervisor)
    → (same_state dst (state_of s) || can_transition s.rt.gateway.machine dst) ≡ true
    → Arrives dst s (move_to dst reason s)
unfolding move_to
move_to-Arrives dst reason s h =
    let (m', e, st) = transition_to dst reason s.rt.gateway.machine h in
    lift_machine-Arrives dst s (transition s.rt.gateway.machine dst reason) m' e st

pub report_body-rt : (b : Option Body) (s : Supervisor) → (report_body b s).rt ≡ s.rt
report_body-rt none s = refl
report_body-rt (some b) s = refl

pub Follows-eq : {a b : Runtime} → b ≡ a → Follows a b
Follows-eq {a} e = subst (Follows a) (sym e) (Follows-refl a)

report_drivers-Follows : (e : Option String) (s : Supervisor) → Follows s.rt (report_drivers e s).rt
unfolding has
report_drivers-Follows none s = record {
  stop = λ h. h;
  machine = refl;
  requires = λ n. refl;
  registered = λ n. refl;
  body = refl;
  readings = refl;
  safety = refl;
}
report_drivers-Follows (some e) s = Follows-refl s.rt

pub connect_backend-Follows : (s : Supervisor) → Follows s.rt (connect_backend s).rt
unfolding connect_backend
connect_backend-Follows s = elim (Bool-cases (has_backend s.rt)) [
  | inl backend ↦ rw backend (report_drivers-Follows s.rt.readings.connect_error s)
  | inr none_there ↦ rw none_there (Follows-refl s.rt)
]

record_start-rt :
    (name : String) (s : Supervisor) (done : Runtime × Bool)
    → (record_start name s done).rt ≡ done.0
record_start-rt name s (rt, true) = refl
record_start-rt name s (rt, false) = refl

module _ (rank : String → ℕ) (depth : ℕ) (bounded : (n : String) → rank n < depth) where
  pub IsRanked-Keeps : {a b : Runtime} → Keeps a b → IsRanked rank a → IsRanked rank b
  IsRanked-Keeps f h name = rw f.requires (h name)

  pub start_services-ends :
      (now : ℕ) (names : List String) (s : Supervisor)
      → IsRanked rank s.rt
      → (s' : Supervisor) × (start_services depth now names s ≡ ok s') × Follows s.rt s'.rt
  unfolding start_services
  start_services-ends now [] s h = (s, refl, Follows-refl s.rt)
  start_services-ends now (name ∷ names) s h =
      elim (Bool-cases (str_eq name "safety_gateway" || not (has s.rt name))) [
        | inl skip ↦ let (s', e, f) = start_services-ends now names s h in (s', rw skip e, f)
        | inr go ↦
            let (done, e, f) = activate_with_deps-Ends rank depth now name s.rt h (bounded name) in
            let f₁ = Follows-trans f (Follows-eq (record_start-rt name s done)) in
            let (s', e', f') =
              start_services-ends now names (record_start name s done)
                (IsRanked-Keeps (keep_of f₁) h) in
            (s', rw go (rw e e'), Follows-trans f₁ f')
      ]

-- The move from one state to another is none, or is legal.
unfoldable pub may_go : DroidState → DroidState → Bool
unfolding same_state among transitions
may_go src dst = same_state dst src || among dst (transitions src)

pub move_from :
    (src dst : DroidState) (reason : String) (s : Supervisor)
    → state_of s ≡ src
    → may_go src dst ≡ true
    → Arrives dst s (move_to dst reason s)
unfolding may_go can_transition
move_from src dst reason s st h =
    move_to-Arrives dst reason s (subst (λ x. may_go x dst ≡ true) (sym st) h)
