-- ===== src/Executive/Drive/Broken.antt =====
-- A drive whose first motion command raises.
use droid_os.Prelude.{ℕ, suc, ◌+◌, ◌≤◌, String, ◌≡◌, refl, true, false, some, ok, arith, ap, ◌∙◌}
use droid_os.Core.States.{active, ready, transition, can_transition}
use droid_os.Services.SafetyGateway.{Gateway, request_motion_permission, set_power}
use droid_os.Services.SafetyGateway.Permission.{may_move, grant_powers}
use droid_os.Executive.BehaviourTree.{raised, returned, success, Node, tick, tick_all, run}
use droid_os.Executive.Drive.{
  Trip, Turn, Clocks, finish, drive_to, acquire, enter_active, drive, tree, max_drive_ticks,
}

request_keeps_machine :
    (beat now stamp logged : ℕ) (g : Gateway)
    → (request_motion_permission beat now stamp logged g).0.machine ≡ g.machine
unfolding request_motion_permission
request_keeps_machine beat now stamp logged g = ground (arith)

run_raised :
    {S : Type 0} (n : ℕ) (root : Node S) (s s' : S) (e : String)
    → tick root s ≡ (s', raised e)
    → run (suc n) root s ≡ (s', raised e)
unfolding run
run_raised n root s s' e h = ground (arith, h)

module _ {C : Type 0} where
  first_turn :
      (turns : ℕ → Turn C) (t : Trip C) (e : String)
      → (turns 0).cancel ≡ false
      → (turns 0).localized ≡ ok true
      → (turns 0).path_blocked ≡ ok false
      → (turns 0).near ≡ ok false
      → (turns 0).drive_error ≡ some e
      → (n : ℕ) → drive (suc n) turns 0 t ≡ (t, raised e)
  unfolding drive
  first_turn turns t e a b c d r n = ground (arith, a, b, c, d, r)

  acquired :
      (c : Clocks) (t : Trip C)
      → may_move c.beat c.now t.gateway.controller ≡ true
      → c.logged ≤ c.beat + t.gateway.controller.watchdog_timeout
      → let (t', a) = acquire c t in
        (a ≡ returned success)
        × (t'.gateway.controller.power ≡ true)
        × (t'.gateway.backend ≡ set_power true t.gateway.backend)
        × (t'.gateway.machine ≡ t.gateway.machine)
  unfolding acquire
  acquired c t may logged =
      let (on, powered, issued, granted, told) =
        grant_powers c.beat c.now c.stamp c.logged t.gateway may logged in
      (
        ground (arith, granted),
        on,
        powered,
        request_keeps_machine c.beat c.now c.stamp c.logged t.gateway,
      )

  entered :
      (t : Trip C)
      → t.gateway.machine.state ≡ ready
      → let (t', a) = enter_active t in
        (a ≡ returned success)
        × (t'.gateway.machine.state ≡ active)
        × (t'.gateway.controller ≡ t.gateway.controller)
        × (t'.gateway.backend ≡ t.gateway.backend)
  unfolding enter_active transition can_transition
  entered t h = ground (arith, h)

  tree_raised :
      (c : Clocks) (turns : ℕ → Turn C) (t t1 t2 : Trip C) (e : String)
      → acquire c t ≡ (t1, returned success)
      → enter_active t1 ≡ (t2, returned success)
      → drive max_drive_ticks turns 0 t2 ≡ (t2, raised e)
      → tick (tree c turns) t ≡ (t2, raised e)
  unfolding tree tick tick_all
  tree_raised c turns t t1 t2 e h k l = rw (h, k, l) refl

  -- When the permission is granted to a droid that is READY, with the grant logged within the
  -- watchdog's timeout of the last heartbeat, and the first motion command raises, where no call of
  -- the first turn before it does and none of them ends the drive, the drive ends with that exception:
  -- the controller's power stays on, the backend stays powered and the droid stays ACTIVE.
  pub broken_drive_keeps_power :
      (c : Clocks) (turns : ℕ → Turn C) (t : Trip C) (e : String)
      → t.gateway.machine.state ≡ ready
      → may_move c.beat c.now t.gateway.controller ≡ true
      → c.logged ≤ c.beat + t.gateway.controller.watchdog_timeout
      → (turns 0).cancel ≡ false
      → (turns 0).localized ≡ ok true
      → (turns 0).path_blocked ≡ ok false
      → (turns 0).near ≡ ok false
      → (turns 0).drive_error ≡ some e
      → let (t', a) = drive_to c turns t in
        (a ≡ raised e)
        × (t'.gateway.controller.power ≡ true)
        × (t'.gateway.backend ≡ set_power true t.gateway.backend)
        × (t'.gateway.machine.state ≡ active)
  unfolding drive_to finish
  broken_drive_keeps_power c turns t e s may logged a b d n r =
      let (t1, a1) = acquire c t in
      let (t2, a2) = enter_active t1 in
      let (got, on, powered, same_machine) = acquired c t may logged in
      let (went, moving, same_controller, same_backend) =
        entered t1 (ap (λ m. m.state) same_machine ∙ s) in
      let fell =
        tree_raised c turns t t1 t2 e (ap (λ x. (t1, x)) got) (ap (λ x. (t2, x)) went)
          (first_turn turns t2 e a b d n r 2999) in
      let ended = run_raised 9999 (tree c turns) t t2 e fell in
      rw ended (refl, ap (λ k. k.power) same_controller ∙ on, same_backend ∙ powered, moving)
