-- ===== src/Services/Supervisor/Restart/Running.antt =====
-- What `restart_failed` reports.
use droid_os.Prelude.{
  ◌+◌, ℕ, String, ◌≡◌, refl, ◌∙◌, ap, Bool, true, false, not, ◌&&◌, Option, none, some, List, [],
  ◌∷◌, arith, lookup-insert, str_eq, eq_iff, contains, Result, ok, err,
}
use droid_os.Services.Lifecycle
use droid_os.Services.Lifecycle.{LifecycleState, unconfigured, active}
use droid_os.Services.Lifecycle.Laws.{activate-active}
use droid_os.Services.Supervisor.Boot.{Supervisor}
use droid_os.System.{Managed, Runtime, service}
use droid_os.Services.Supervisor.Restart.{
  restart_managed, noted, restarted, restart_next, restart_each, restart_failed,
}

abbrev pub distinct : List String → Bool
distinct [] = true
distinct (n ∷ ns) = not (contains n ns) && distinct ns

restart_managed-other :
    (now : ℕ) (name other : String) (m : Managed) (rt : Runtime)
    → str_eq name other ≡ false
    → service (restart_managed now name m rt).0 other ≡ service rt other
unfolding restart_managed
restart_managed-other now name other m rt n = ground (
  arith,
  n,
  lookup-insert name other (record m { service = (Lifecycle.restart m.hooks m.service).0 })
      rt.services,
)

next-other :
    (now : ℕ) (name : String) (rest : Supervisor → Supervisor × Result String (List String))
    (other : String) (o : Option Managed) (s : Supervisor)
    → str_eq name other ≡ false
    → ((s' : Supervisor) → service (rest s').0.rt other ≡ service s'.rt other)
    → service (restart_next rest now name o s).0.rt other ≡ service s.rt other
next-other now name rest other none s n later = refl
next-other now name rest other (some m) s n later =
    later (noted name s (restart_managed now name m s.rt))
    ∙ restart_managed-other now name other m s.rt n

-- A service that is not restarted stays as it is.
restart_each-other :
    (now : ℕ) (names : List String) (other : String) (s : Supervisor)
    → contains other names ≡ false
    → service (restart_each now names s).0.rt other ≡ service s.rt other
unfolding restart_each
restart_each-other now [] other s h = refl
restart_each-other now (name ∷ names) other s h =
    next-other now name (restart_each now names) other (service s.rt name) s (ground (arith, h))
      (λ s'. restart_each-other now names other s' (ground (arith, h)))

abbrev pub runs : Option Managed → Bool
runs none = false
runs (some m) = elim m.service.state [ active ↦ true | _ ↦ false ]

-- the service of that name is there, and active
abbrev pub is_running : Runtime → String → Bool
is_running rt name = runs (service rt name)

abbrev pub all_running : Runtime → List String → Bool
all_running rt [] = true
all_running rt (n ∷ ns) = is_running rt n && all_running rt ns

abbrev all_among : List String → List String → Bool
all_among [] names = true
all_among (n ∷ ns) names = contains n names && all_among ns names

-- the answer names some of those services, and they run
abbrev pub AnswersRunning : List String → Supervisor × Result String (List String) → Type 0
AnswersRunning names (s, err e) = Unit
AnswersRunning names (s, ok ns) = (all_running s.rt ns ≡ true) × (all_among ns names ≡ true)

restart-active :
    (h : Lifecycle.Hooks) (s : Lifecycle.Service)
    → (Lifecycle.restart h s).1 ≡ true
    → (Lifecycle.restart h s).0.state ≡ active
unfolding Lifecycle.restart
restart-active h s e =
    (activate-active h (Lifecycle.cleanup h (record s { restart_count = s.restart_count + 1 })).0).0
      e

restarted-runs :
    (now : ℕ) (name : String) (m : Managed) (rt : Runtime)
    → (restart_managed now name m rt).1 ≡ true
    → is_running (restart_managed now name m rt).0 name ≡ true
unfolding restart_managed
restarted-runs now name m rt h =
    let after = record m { service = (Lifecycle.restart m.hooks m.service).0 } in
    ap runs (lookup-insert name name after rt.services)
    ∙ ground (arith, eq_iff name name, restart-active m.hooks m.service h)

wider :
    (ns names : List String) (n : String)
    → all_among ns names ≡ true
    → all_among ns (n ∷ names) ≡ true
wider [] names n h = refl
wider (k ∷ ns) names n h = ground (arith, h, wider ns names n)

restarted-AnswersRunning :
    (done : Bool) (name : String) (names : List String) (s : Supervisor)
    (r : Result String (List String))
    → (done ≡ true → is_running s.rt name ≡ true)
    → AnswersRunning names (s, r)
    → AnswersRunning (name ∷ names) (s, restarted done name r)
restarted-AnswersRunning done name names s (err e) h a = tt
restarted-AnswersRunning true name names s (ok ns) h (a, b) =
    (ground (arith, a, h refl), ground (arith, eq_iff name name, wider ns names name b))
restarted-AnswersRunning false name names s (ok ns) h (a, b) = (a, wider ns names name b)

next-AnswersRunning :
    (now : ℕ) (name : String) (names : List String) (o : Option Managed) (s : Supervisor)
    → contains name names ≡ false
    → ((s' : Supervisor) → AnswersRunning names (restart_each now names s'))
    → AnswersRunning (name ∷ names) (restart_next (restart_each now names) now name o s)
next-AnswersRunning now name names none s n later = tt
next-AnswersRunning now name names (some m) s n later =
    let once = restart_managed now name m s.rt in
    let s' = noted name s once in
    restarted-AnswersRunning once.1 name names (restart_each now names s').0 _
      (λ d. ap runs (restart_each-other now names name s' n) ∙ restarted-runs now name m s.rt d)
      (later s')

restart_each-AnswersRunning :
    (now : ℕ) (names : List String) (s : Supervisor)
    → distinct names ≡ true
    → AnswersRunning names (restart_each now names s)
unfolding restart_each
restart_each-AnswersRunning now [] s h = (refl, refl)
restart_each-AnswersRunning now (name ∷ names) s h =
    next-AnswersRunning now name names (service s.rt name) s (ground (arith, h))
      (λ s'. restart_each-AnswersRunning now names s' (ground (arith, h)))

-- Every service that `restart_failed` reports as restarted was one of the failed ones and is active
-- when it returns, where no service is listed twice as failed.
pub restart_failed-AnswersRunning :
    (now : ℕ) (s : Supervisor)
    → distinct s.failed_services ≡ true
    → AnswersRunning s.failed_services (restart_failed now s)
unfolding restart_failed
restart_failed-AnswersRunning now s h = restart_each-AnswersRunning now s.failed_services s h
