-- ===== src/Services/Supervisor/Restart.antt =====
-- `restart_failed` of `src/droidos/services/supervisor.py`.
pub mod Running
use droid_os.Prelude.{
  ◌+◌, ℕ, String, ◌≡◌, refl, sym, ◌∙◌, ap, if-elim, Bool, true, false, not, ◌&&◌, ◌||◌, Option,
  none, some, List, [], ◌∷◌, arith, lookup, insert, lookup-insert, str_eq, eq_iff, contains, All,
  is_some, Result, ok, err, if◌then◌else◌, inl, inr, Option-cases,
}
use droid_os.Services.Lifecycle
use droid_os.Services.Lifecycle.{LifecycleState, unconfigured, active}
use droid_os.Services.Lifecycle.Laws.{activate-active}
use droid_os.Services.Supervisor.Activation.{hook_effects}
use droid_os.Services.Supervisor.Boot.{Supervisor}
use droid_os.System.{Managed, Runtime, register, service}

-- `names.remove(name)`: the first one
unfoldable pub remove : String → List String → List String
remove name [] = []
remove name (n ∷ ns) = let rest = remove name ns in if str_eq n name then ns else n ∷ rest

-- `svc.restart()` of a registered service, which runs its hooks from the unconfigured state
unfoldable pub restart_managed : ℕ → String → Managed → Runtime → Runtime × Bool
restart_managed now name m rt =
    let (s, done) = Lifecycle.restart m.hooks m.service in
    (
      register name (record m { service = s })
          (record rt { gateway = hook_effects now name unconfigured rt.gateway }),
      done,
    )

-- what a restart leaves of the failed services
abbrev pub noted : String → Supervisor → Runtime × Bool → Supervisor
noted name s (rt, done) = record s {
  rt = rt;
  failed_services = if done then remove name s.failed_services else s.failed_services;
}

abbrev pub restarted : Bool → String → Result String (List String) → Result String (List String)
restarted done name (err e) = err e
restarted done name (ok names) = ok (if done then name ∷ names else names)

-- one turn of the loop, given the rest; a name without a service raises
abbrev pub restart_next :
    (Supervisor → Supervisor × Result String (List String))
    → ℕ
    → String
    → Option Managed
    → Supervisor
    → Supervisor × Result String (List String)
restart_next rest now name none s = (s, err "AttributeError")
restart_next rest now name (some m) s =
    let once = restart_managed now name m s.rt in
    let (s', r) = rest (noted name s once) in (s', restarted once.1 name r)

-- the loop over a copy of the names
unfoldable pub restart_each :
    ℕ → List String → Supervisor → Supervisor × Result String (List String)
restart_each now [] s = (s, ok [])
restart_each now (name ∷ names) s =
    restart_next (restart_each now names) now name (service s.rt name) s

unfoldable pub restart_failed : ℕ → Supervisor → Supervisor × Result String (List String)
unfolding restart_each
restart_failed now s = restart_each now s.failed_services s
