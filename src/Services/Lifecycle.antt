-- ===== src/Services/Lifecycle.antt =====
-- `src/droidos/services/lifecycle.py`: the lifecycle of a managed service. A hook that a subclass
-- overrides is what it does when it is called: it returns a truth value, or raises an exception with
-- the text that `_guard` records. What a hook does to the service's own data is modelled with that
-- service.
pub mod Laws
use droid_os.Prelude.{
  ℕ, ◌+◌, ◌==◌, String, Bool, true, false, not, ◌||◌, if◌then◌else◌, Option, none, some,
}

pub data LifecycleState : Type 0 where
  unconfigured inactive active finalized : LifecycleState

abbrev pub tag : LifecycleState → ℕ
tag unconfigured = 0
tag inactive = 1
tag active = 2
tag finalized = 3

-- `==` of the enumeration
unfoldable pub same : LifecycleState → LifecycleState → Bool
same s t = tag s == tag t

pub data Hook : Type 0 where
  returned : Bool → Hook
  raised : String → Hook

pub record Hooks : Type 0 where
  pub on_configure : Hook
  pub on_activate : Hook
  pub on_deactivate : Hook
  pub on_cleanup : Hook

pub record Service : Type 0 where
  pub state : LifecycleState
  pub restart_count : ℕ
  pub last_error : String

-- `ManagedService(name, rt)`
abbrev pub new : Service
new = record { state = unconfigured; restart_count = 0; last_error = "" }

-- `_guard`
unfoldable pub guard : Hook → Service → Service × Bool
guard (returned b) s = (record s { last_error = "" }, b)
guard (raised e) s = (record s { last_error = e }, false)

-- `if ok: self.state = target`
abbrev pub enter_if_ok : LifecycleState → Service × Bool → Service × Bool
enter_if_ok target (s, true) = (record s { state = target }, true)
enter_if_ok target (s, false) = (s, false)

unfoldable pub configure : Hooks → Service → Service × Bool
unfolding same guard
configure h s =
    if not (same s.state unconfigured || same s.state inactive)
    then (s, same s.state inactive)
    else enter_if_ok inactive (guard h.on_configure s)

-- the second half of `activate`, once the service is configured
abbrev pub activate_configured : Hooks → Service × Bool → Service × Bool
activate_configured h (s, false) = (s, false)
activate_configured h (s, true) = enter_if_ok active (guard h.on_activate s)

unfoldable pub activate : Hooks → Service → Service × Bool
unfolding configure
activate h s =
    if same s.state active
    then (s, true)
    else if not (same s.state inactive)
    then activate_configured h (configure h s)
    else activate_configured h (s, true)

unfoldable pub deactivate : Hooks → Service → Service × Bool
unfolding same guard
deactivate h s =
    if not (same s.state active) then (s, true) else enter_if_ok inactive (guard h.on_deactivate s)

unfoldable pub cleanup : Hooks → Service → Service × Bool
unfolding guard
cleanup h s = (record (guard h.on_cleanup s).0 { state = unconfigured }, true)

-- the exception, if any, of a hook that is called without `_guard`
abbrev pub escapes : Hook → Option String
escapes (returned b) = none
escapes (raised e) = some e

-- The state that the `finally` leaves, and the exception that passes through it.
unfoldable pub shutdown : Hooks → Service → Service × Option String
unfolding deactivate
shutdown h s =
    let s' = if same s.state active then (deactivate h s).0 else s in
    (record s' { state = finalized }, escapes h.on_cleanup)

unfoldable pub restart : Hooks → Service → Service × Bool
unfolding cleanup activate
restart h s = activate h (cleanup h (record s { restart_count = s.restart_count + 1 })).0
