-- ===== src/Executive/Intents/DriveOff.antt =====
-- executive/executive.py: motor power after a drive in whose loop nothing raises.
use droid_os.Prelude.{ℕ, ◌≡◌, true, false, arith, ap, ◌∙◌, Bool-cases, inl, inr}
use droid_os.Services.SafetyGateway.Permission.{allowed-may_move, refusal_keeps}
use droid_os.Executive.BehaviourTree.{Answer, returned, raised, tick}
use droid_os.Executive.Drive.{Trip, Turn, Clocks, acquire, tree, release, finish, drive_to}
use droid_os.Executive.Drive.Release.{is_raised, is_calm, tree_calm, settle_leaves}
use droid_os.Executive.Drive.Stays.{run_once, tree_settles, tree_held, tree_refused}
use droid_os.Executive.Intents.Power.{is_off, release_off}

module _ {C : Type 0} where
  finish_off :
      (c : Clocks) (t : Trip C) (a : Answer)
      → is_raised a ≡ false
      → (t.held ≡ false → is_off t.gateway ≡ true)
      → is_off (finish c t a).0.gateway ≡ true
  unfolding finish
  finish_off c t (raised e) calm h = absurd (ground (arith, calm))
  finish_off c t (returned st) calm h =
      let (done, idle, same_held, same_controller, same_backend, same_token) =
        settle_leaves (release c t) st in
      let off : is_off (release c t).gateway ≡ true =
        ground (arith, h, release_off c.released t.gateway) in
      rw (same_controller, same_backend) off

  refused_off :
      (c : Clocks) (t : Trip C)
      → is_off t.gateway ≡ true
      → (acquire c t).0.held ≡ false
      → is_off (acquire c t).0.gateway ≡ true
  unfolding acquire
  refused_off c t h r = ground (
    arith,
    h,
    r,
    allowed-may_move c.beat c.now c.stamp c.logged t.gateway,
    refusal_keeps c.beat c.now c.stamp c.logged t.gateway,
  )

  tick_off :
      (c : Clocks) (turns : ℕ → Turn C) (t : Trip C)
      → is_off t.gateway ≡ true
      → (tick (tree c turns) t).0.held ≡ false
      → is_off (tick (tree c turns) t).0.gateway ≡ true
  tick_off c turns t h r = elim (Bool-cases (acquire c t).0.held) [
    | inl held ↦ absurd (ground (arith, tree_held c turns t held, r))
    | inr refused ↦
        ap (λ s. is_off s.gateway) (tree_refused c turns t refused) ∙ refused_off c t h refused
  ]

  -- A drive that begins with motor power off, and in whose loop nothing raises, ends with it off.
  pub drive_to_off :
      (c : Clocks) (turns : ℕ → Turn C) (t : Trip C)
      → ((k : ℕ) → is_calm (turns k) ≡ true)
      → is_off t.gateway ≡ true
      → is_off (drive_to c turns t).0.gateway ≡ true
  unfolding drive_to
  drive_to_off c turns t calm h =
      let once = run_once 9999 (tree c turns) t (tree_settles c turns t) in
      let (t', a) = tick (tree c turns) t in
      rw once (finish_off c t' a (tree_calm c turns t calm) (tick_off c turns t h))
