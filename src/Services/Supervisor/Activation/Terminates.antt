-- ===== src/Services/Supervisor/Activation/Terminates.antt =====
-- Activation in dependency order ends on acyclic requirements, and touches only services and the
-- gateway.
use droid_os.Prelude.{
  ℕ, zero, suc, ◌<◌, String, ◌≡◌, refl, ◌∙◌, Bool, true, Option, none, some, List, [], ◌∷◌, arith,
  Result, ok, All, Bool-cases, inl, inr, lookup-insert, eq_iff,
}
use droid_os.Services.Lifecycle.{LifecycleState, unconfigured}
use droid_os.Backends.SafetyController
use droid_os.Services.SafetyGateway
use droid_os.Services.SafetyGateway.{Gateway}
use droid_os.System.{Managed, Runtime, service, has}
use droid_os.Services.Supervisor.Activation.{
  Fault, gateway_hooks, hook_effects, activate_managed, activate_named, requires_of, each_dep,
  activate_with_deps,
}

-- `rank` puts every required service below the one that requires it, so there is no cycle.
abbrev pub IsRanked : (String → ℕ) → Runtime → Type 0
IsRanked rank rt = (name : String) → All (λ d. rank d < rank name) (requires_of (service rt name))

-- The emergency stop is engaged at the controller.
abbrev pub is_engaged : Runtime → Bool
is_engaged rt = rt.gateway.controller.estop

-- What activation leaves alone, an engaged emergency stop among it.
pub record Follows (before after : Runtime) : Type 0 where
  pub stop : is_engaged before ≡ true → is_engaged after ≡ true
  pub machine : after.gateway.machine ≡ before.gateway.machine
  pub requires :
      (name : String) → requires_of (service after name) ≡ requires_of (service before name)
  pub registered : (name : String) → has after name ≡ has before name
  pub body : after.body ≡ before.body
  pub readings : after.readings ≡ before.readings
  pub safety : after.has_safety ≡ before.has_safety

pub Follows-refl : (rt : Runtime) → Follows rt rt
Follows-refl rt = record {
  stop = λ h. h;
  machine = refl;
  requires = λ n. refl;
  registered = λ n. refl;
  body = refl;
  readings = refl;
  safety = refl;
}

pub Follows-trans : {a b c : Runtime} → Follows a b → Follows b c → Follows a c
Follows-trans f g = record {
  stop = λ h. g.stop (f.stop h);
  machine = g.machine ∙ f.machine;
  requires = λ n. g.requires n ∙ f.requires n;
  registered = λ n. g.registered n ∙ f.registered n;
  body = g.body ∙ f.body;
  readings = g.readings ∙ f.readings;
  safety = g.safety ∙ f.safety;
}

machine-gateway_hooks :
    (now : ℕ) (s : LifecycleState) (g : Gateway) → (gateway_hooks now s g).machine ≡ g.machine
unfolding SafetyGateway.on_activate SafetyGateway.on_configure
machine-gateway_hooks now unconfigured g = ground arith
machine-gateway_hooks now _ g = refl

machine-hook_effects :
    (now : ℕ) (name : String) (s : LifecycleState) (g : Gateway)
    → (hook_effects now name s g).machine ≡ g.machine
machine-hook_effects now name s g = ground (arith, machine-gateway_hooks now s g)

stop-hook_effects :
    (now : ℕ) (name : String) (s : LifecycleState) (g : Gateway)
    → g.controller.estop ≡ true
    → (hook_effects now name s g).controller.estop ≡ true
unfolding SafetyGateway.on_activate SafetyGateway.on_configure SafetyController.disable_power
    SafetyController.engage_estop
stop-hook_effects now name s g h = ground (arith, h)

activate_managed-Follows :
    (now : ℕ) (name : String) (o : Option Managed) (rt : Runtime)
    → service rt name ≡ o
    → Follows rt (activate_managed now name o rt).0
unfolding has
activate_managed-Follows now name none rt e = Follows-refl rt
activate_managed-Follows now name (some m) rt e = record {
  stop = stop-hook_effects now name m.service.state rt.gateway;
  machine = machine-hook_effects now name m.service.state rt.gateway;
  requires = λ n. rw lookup-insert (ground (arith, eq_iff name n));
  registered = λ n. rw lookup-insert (ground (arith, eq_iff name n));
  body = refl;
  readings = refl;
  safety = refl;
}

pub activate_named-Follows :
    (now : ℕ) (name : String) (rt : Runtime) → Follows rt (activate_named now name rt).0
unfolding activate_named
activate_named-Follows now name rt = activate_managed-Follows now name (service rt name) rt refl

module _ (rank : String → ℕ) where
  IsRanked-Follows : {a b : Runtime} → Follows a b → IsRanked rank a → IsRanked rank b
  IsRanked-Follows f h name = rw f.requires (h name)

  abbrev Ends : Runtime → Result Fault (Runtime × Bool) → Type 0
  Ends rt r = (done : Runtime × Bool) × (r ≡ ok done) × Follows rt done.0

  each_dep-Ends :
      (call : String → Runtime → Result Fault (Runtime × Bool)) (bound : ℕ)
      → ((d : String) (rt : Runtime) → IsRanked rank rt → rank d < bound → Ends rt (call d rt))
      → (deps : List String) (rt : Runtime) → All (λ d. rank d < bound) deps
      → IsRanked rank rt
      → (rt' : Runtime) × (each_dep call deps rt ≡ ok rt') × Follows rt rt'
  unfolding each_dep
  each_dep-Ends call bound each [] rt below h = (rt, refl, Follows-refl rt)
  each_dep-Ends call bound each (dep ∷ deps) rt below h = elim (Bool-cases (has rt dep)) [
    | inr absent ↦
        let (rt', e, f) = each_dep-Ends call bound each deps rt below.1 h in (rt', rw absent e, f)
    | inl present ↦
        let (done, e, f) = each dep rt h below.0 in
        let (rt', e', f') =
          each_dep-Ends call bound each deps done.0 below.1 (IsRanked-Follows f h) in
        (rt', rw present (rw e e'), Follows-trans f f')
  ]

  -- With a recursion limit above the service's rank the recursion ends without an error, and leaves
  -- the state machine, the registry, the requirements, the body and the hardware readings alone.
  pub activate_with_deps-Ends :
      (depth now : ℕ) (name : String) (rt : Runtime)
      → IsRanked rank rt
      → rank name < depth
      → Ends rt (activate_with_deps depth now name rt)
  unfolding activate_with_deps
  activate_with_deps-Ends zero now name rt h below = absurd (omega arith)
  activate_with_deps-Ends (suc depth) now name rt h below =
      let (rt', e, f) =
        each_dep-Ends (activate_with_deps depth now) (rank name)
          (λ d rt₁ h₁ lt. activate_with_deps-Ends depth now d rt₁ h₁ (omega arith))
          (requires_of (service rt name)) rt (h name) h in
      (activate_named now name rt', rw e, Follows-trans f (activate_named-Follows now name rt'))
