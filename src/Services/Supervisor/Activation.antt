-- ===== src/Services/Supervisor/Activation.antt =====
-- `_activate_with_deps` of `src/droidos/services/supervisor.py`. The recursion follows `requires`
-- and has no guard against cycles: its depth is bounded by the interpreter's recursion limit, an
-- argument, and passing it raises `RecursionError`.
pub mod Terminates
use droid_os.Prelude.{
  ℕ, zero, suc, String, Bool, true, false, Option, none, some, List, [], ◌∷◌, str_eq, if◌then◌else◌,
  Result, ok, err, ◌>>=◌,
}
use droid_os.Core.States.{InvalidTransition}
use droid_os.Services.Lifecycle
use droid_os.Services.Lifecycle.{LifecycleState, unconfigured, inactive}
use droid_os.Services.SafetyGateway
use droid_os.Services.SafetyGateway.{Gateway}
use droid_os.System.{Managed, Runtime, register, service, has}

pub data Fault : Type 0 where
  illegal_move : InvalidTransition → Fault
  recursion_error : Fault

-- What the safety gateway's own hooks do when its service is activated from a state. Both
-- heartbeats are taken at one reading of the clock.
abbrev pub gateway_hooks : ℕ → LifecycleState → Gateway → Gateway
gateway_hooks now unconfigured g = SafetyGateway.on_activate now (SafetyGateway.on_configure now g)
gateway_hooks now inactive g = SafetyGateway.on_activate now g
gateway_hooks now _ g = g

abbrev pub hook_effects : ℕ → String → LifecycleState → Gateway → Gateway
hook_effects now name s g = if str_eq name "safety_gateway" then gateway_hooks now s g else g

abbrev pub activate_managed : ℕ → String → Option Managed → Runtime → Runtime × Bool
activate_managed now name none rt = (rt, false)
activate_managed now name (some m) rt =
    let (s, done) = Lifecycle.activate m.hooks m.service in
    (
      register name (record m { service = s })
          (record rt { gateway = hook_effects now name m.service.state rt.gateway }),
      done,
    )

-- `svc.activate()` of a registered service
unfoldable pub activate_named : ℕ → String → Runtime → Runtime × Bool
activate_named now name rt = activate_managed now name (service rt name) rt

abbrev pub requires_of : Option Managed → List String
requires_of none = []
requires_of (some m) = m.requires

-- The loop over `svc.requires`, given the call for one service; what the call returns is dropped.
unfoldable pub each_dep :
    (String → Runtime → Result Fault (Runtime × Bool))
    → List String
    → Runtime
    → Result Fault Runtime
each_dep call [] rt = ok rt
each_dep call (dep ∷ deps) rt =
    let rest = λ (done : Runtime × Bool). each_dep call deps done.0 in
    let skip = each_dep call deps rt in if has rt dep then call dep rt >>= rest else skip

unfoldable pub activate_with_deps :
    (depth now : ℕ) → String → Runtime → Result Fault (Runtime × Bool)
activate_with_deps zero now name rt = err recursion_error
activate_with_deps (suc depth) now name rt =
    each_dep (activate_with_deps depth now) (requires_of (service rt name)) rt >>= λ rt'.
    ok (activate_named now name rt')
