-- ===== src/Services/Lifecycle/Laws.antt =====
-- What the calls of the lifecycle guarantee.
use droid_os.Prelude.{◌+◌, ◌≡◌, ◌↔◌, ◌⊎◌, Bool, true, false, ◌&&◌, arith}
use droid_os.Services.Lifecycle.{
  unconfigured, inactive, active, finalized, Hook, returned, raised, Hooks, Service, configure,
  activate, deactivate, cleanup, shutdown, restart, escapes,
}

-- Whether a hook returns a true value.
abbrev pub succeeds : Hook → Bool
succeeds (returned b) = b
succeeds (raised e) = false

-- `activate` returns True exactly when it leaves the service active.
pub activate-active :
    (h : Hooks) (s : Service) → ((activate h s).1 ≡ true) ↔ ((activate h s).0.state ≡ active)
unfolding activate
activate-active h s = (λ e. ground arith, λ e. ground arith)

-- A call of `activate` that fails leaves the service in its state, or configured: a service that was
-- not configured is inactive when its configuration succeeded and its activation failed.
pub activate_failed :
    (h : Hooks) (s : Service)
    → (activate h s).1 ≡ false
    → ((activate h s).0.state ≡ s.state)
      ⊎ ((s.state ≡ unconfigured)
          × ((activate h s).0.state ≡ inactive)
          × (succeeds h.on_configure ≡ true))
unfolding activate
activate_failed h s e = ground arith

-- A call that may move a service from one state to another.
pub data Op : Type 0 where
  configuring activating deactivating cleaning stopping restarting : Hooks → Op

unfoldable pub apply : Op → Service → Service
unfolding configure activate deactivate cleanup shutdown restart
apply (configuring h) s = (configure h s).0
apply (activating h) s = (activate h s).0
apply (deactivating h) s = (deactivate h s).0
apply (cleaning h) s = (cleanup h s).0
apply (stopping h) s = (shutdown h s).0
apply (restarting h) s = (restart h s).0

-- The calls that clean up, which alone bring a finalized service back.
abbrev pub cleans : Op → Bool
cleans (cleaning h) = true
cleans (restarting h) = true
cleans _ = false

-- A finalized service stays so, unless it is cleaned up or restarted.
pub finalized_stays :
    (op : Op) (s : Service)
    → s.state ≡ finalized
    → cleans op ≡ false
    → (apply op s).state ≡ finalized
unfolding apply
finalized_stays (cleaning h) s f c = cc
finalized_stays (restarting h) s f c = cc
finalized_stays _ s f c = ground arith

-- `shutdown` finalizes the service whatever its hooks do, and lets only the exception of the cleanup
-- hook through.
pub shutdown_finalizes :
    (h : Hooks) (s : Service)
    → ((shutdown h s).0.state ≡ finalized)
      × ((shutdown h s).1 ≡ escapes h.on_cleanup)
      × ((shutdown h s).0.restart_count ≡ s.restart_count)
unfolding shutdown
shutdown_finalizes h s = ground arith

-- `restart` counts one more, from any state, and succeeds exactly when both the configuration and
-- the activation hook do, whatever the cleanup hook does; then the service is active.
pub restart_outcome :
    (h : Hooks) (s : Service)
    → ((restart h s).0.restart_count ≡ s.restart_count + 1)
      × ((restart h s).1 ≡ (succeeds h.on_configure && succeeds h.on_activate))
      × (((restart h s).1 ≡ true) ↔ ((restart h s).0.state ≡ active))
unfolding restart
restart_outcome h s = (ground arith, ground arith, (λ e. ground arith, λ e. ground arith))
