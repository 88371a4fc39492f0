-- ===== src/Executive/Drive/Release.antt =====
-- executive/executive.py: the permission after a drive in whose loop nothing raises.
use droid_os.Prelude.{
  ℕ, zero, suc, String, ◌≡◌, ◌≢◌, refl, Bool, true, false, arith, some, none, not, ◌&&◌, is_some,
  Option, Result, ok, err,
}
use droid_os.Core.States.{active, transition, can_transition}
use droid_os.Backends.SafetyController.{disable_power, status, check_watchdog}
use droid_os.Services.SafetyGateway.{empty, release_motion_permission}
use droid_os.Executive.BehaviourTree.{
  Answer, Status, returned, raised, success, failure, running, Node, and_then, unless_settled, tick,
  tick_all, run,
}
use droid_os.Executive.Drive.{
  Trip, Turn, Clocks, finish, drive_to, acquire, enter_active, drive, tree, max_drive_ticks, settle,
  release, noted, stopped_short, blocked,
}

abbrev pub is_raised : Answer → Bool
is_raised (raised e) = true
is_raised (returned st) = false

pub all_calm :
    {S : Type 0} (s : S) (a : Answer) (name : String) (rest : S × Answer × String)
    → is_raised a ≡ false
    → is_raised rest.1 ≡ false
    → is_raised (and_then s a name rest).1 ≡ false
all_calm s (raised e) name rest h k = h
all_calm s (returned success) name rest h k = k
all_calm s (returned failure) name rest h k = refl
all_calm s (returned running) name rest h k = refl

settled_calm :
    {S : Type 0} (s : S) (a : Answer) (rest : S × Answer)
    → is_raised a ≡ false
    → is_raised rest.1 ≡ false
    → is_raised (unless_settled s a rest).1 ≡ false
settled_calm s (raised e) rest h k = h
settled_calm s (returned success) rest h k = refl
settled_calm s (returned failure) rest h k = refl
settled_calm s (returned running) rest h k = k

-- a tree that never raises does not raise when it is run
pub run_calm :
    {S : Type 0} (n : ℕ) (root : Node S) (s : S)
    → ((s : S) → is_raised (tick root s).1 ≡ false)
    → is_raised (run n root s).1 ≡ false
unfolding run
run_calm zero root s h = refl
run_calm (suc n) root s h =
    let (s', a) = tick root s in settled_calm s' a (run n root s') (h s) (run_calm n root s' h)

abbrev is_ok : {A : Type 0} → Result String A → Bool
is_ok (ok a) = true
is_ok (err e) = false

abbrev no_error : {A : Type 0} → Option (Result String A) → Bool
no_error none = true
no_error (some r) = is_ok r

-- no call of the turn raises
abbrev pub is_calm : {C : Type 0} → Turn C → Bool
is_calm turn =
    is_ok turn.localized
    && is_ok turn.path_blocked
    && no_error turn.obstacle
    && is_ok turn.near
    && not (is_some turn.drive_error)

module _ {C : Type 0} where
  short_calm :
      (now : ℕ) (o : Option (Result String (C × C))) (t : Trip C)
      → no_error o ≡ true
      → is_raised (stopped_short (record t { result = blocked }) (noted now o t.world)).1 ≡ false
  short_calm now o t h = ground (arith, h)

  acquire_calm : (c : Clocks) (t : Trip C) → is_raised (acquire c t).1 ≡ false
  unfolding acquire
  acquire_calm c t = ground (arith)

  enter_calm : (t : Trip C) → is_raised (enter_active t).1 ≡ false
  unfolding enter_active transition can_transition
  enter_calm t = ground (arith)

  drive_calm :
      (n : ℕ) (turns : ℕ → Turn C) (k : ℕ) (t : Trip C)
      → ((k : ℕ) → is_calm (turns k) ≡ true)
      → is_raised (drive n turns k t).1 ≡ false
  unfolding drive
  drive_calm zero turns k t h = refl
  drive_calm (suc n) turns k t h =
      ground
        (arith, h k, drive_calm n turns (suc k) t h, short_calm (turns k).now (turns k).obstacle t)

  pub tree_calm :
      (c : Clocks) (turns : ℕ → Turn C) (t : Trip C)
      → ((k : ℕ) → is_calm (turns k) ≡ true)
      → is_raised (tick (tree c turns) t).1 ≡ false
  unfolding tree tick tick_all
  tree_calm c turns t h =
      let (t1, a1) = acquire c t in
      let (t2, a2) = enter_active t1 in
      let (t3, a3) = drive max_drive_ticks turns 0 t2 in
      all_calm t1 a1 _ _ (acquire_calm c t) (
        all_calm t2 a2 _ _ (enter_calm t1)
          (all_calm t3 a3 _ _ (drive_calm max_drive_ticks turns 0 t2 h) refl))

  -- leaving ACTIVE is a legal move, which keeps the rest
  pub settle_leaves :
      (t : Trip C) (st : Status)
      → let (t', b) = settle t (returned st) in
        (is_raised b ≡ false)
        × (t'.gateway.machine.state ≢ active)
        × (t'.held ≡ t.held)
        × (t'.gateway.controller ≡ t.gateway.controller)
        × (t'.gateway.backend ≡ t.gateway.backend)
        × (t'.gateway.token ≡ t.gateway.token)
  unfolding transition can_transition
  settle_leaves t st =
      (ground arith, λ e. ground (arith, e), ground arith, ground arith, ground arith, ground arith)

  release_cuts :
      (c : Clocks) (t : Trip C)
      → t.held ≡ true
      → ((release c t).gateway.controller.power ≡ false)
        × ((release c t).gateway.backend ≢ some true)
        × ((release c t).gateway.token ≡ empty)
  unfolding release_motion_permission disable_power status check_watchdog
  release_cuts c t h = (ground (arith, h), λ e. ground (arith, h, e), ground (arith, h))

  finish_releases :
      (c : Clocks) (t : Trip C) (a : Answer)
      → is_raised a ≡ false
      → let (t', b) = finish c t a in
        (is_raised b ≡ false)
        × (t'.gateway.machine.state ≢ active)
        × (t'.held ≡ true
            → (t'.gateway.controller.power ≡ false)
              × (t'.gateway.backend ≢ some true)
              × (t'.gateway.token ≡ empty))
  unfolding finish release_motion_permission transition can_transition
  finish_releases c t (raised e) h = absurd (ground (arith, h))
  finish_releases c t (returned st) h =
      let (calm, idle, same_held, same_controller, same_backend, same_token) =
        settle_leaves (release c t) st in
      (
        calm,
        idle,
        λ held.
            let (cut, off, none_left) = release_cuts c t (ground (arith, held, same_held)) in
            (rw same_controller cut, rw same_backend off, rw same_token none_left),
      )

  -- A drive in whose loop no call of a service raises returns, however it ends: the droid is not ACTIVE
  -- afterwards, and if the permission was held, the controller's power is cut, the backend is off and
  -- the token is empty.
  pub drive_releases :
      (c : Clocks) (turns : ℕ → Turn C) (t : Trip C)
      → ((k : ℕ) → is_calm (turns k) ≡ true)
      → let (t', a) = drive_to c turns t in
        (is_raised a ≡ false)
        × (t'.gateway.machine.state ≢ active)
        × (t'.held ≡ true
            → (t'.gateway.controller.power ≡ false)
              × (t'.gateway.backend ≢ some true)
              × (t'.gateway.token ≡ empty))
  unfolding drive_to
  drive_releases c turns t h =
      let (t', a) = run 10000 (tree c turns) t in
      finish_releases c t' a (run_calm 10000 (tree c turns) t (λ t. tree_calm c turns t h))
