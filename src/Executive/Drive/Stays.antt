-- ===== src/Executive/Drive/Stays.antt =====
-- That the tree of a drive settles in its first tick, and whether the permission is held then.
use droid_os.Prelude.{ℕ, zero, suc, String, ◌≡◌, ◌∙◌, refl, Bool, true, false, arith}
use droid_os.Core.States.{transition, can_transition}
use droid_os.Executive.BehaviourTree.{
  Answer, returned, raised, success, failure, running, Node, and_then, unless_settled, tick,
  tick_all, run,
}
use droid_os.Executive.Drive.{
  Trip, Turn, Clocks, acquire, enter_active, drive, tree, max_drive_ticks,
}

abbrev pub is_running : Answer → Bool
is_running (returned running) = true
is_running _ = false

settles_then :
    {S : Type 0} (s : S) (a : Answer) (name : String) (rest : S × Answer × String)
    → is_running a ≡ false
    → is_running rest.1 ≡ false
    → is_running (and_then s a name rest).1 ≡ false
settles_then s (raised e) name rest h k = h
settles_then s (returned success) name rest h k = k
settles_then s (returned failure) name rest h k = refl
settles_then s (returned running) name rest h k = h

settled_first :
    {S : Type 0} (s : S) (a : Answer) (rest : S × Answer)
    → is_running a ≡ false
    → unless_settled s a rest ≡ (s, a)
settled_first s (raised e) rest h = refl
settled_first s (returned success) rest h = refl
settled_first s (returned failure) rest h = refl
settled_first s (returned running) rest h = absurd (ground (arith, h))

-- A tree that does not answer RUNNING is ticked once.
pub run_once :
    {S : Type 0} (n : ℕ) (root : Node S) (s : S)
    → is_running (tick root s).1 ≡ false
    → run (suc n) root s ≡ tick root s
unfolding run
run_once n root s h = let (s', a) = tick root s in settled_first s' a (run n root s') h

module _ {C : Type 0} where
  drive_settles :
      (n : ℕ) (turns : ℕ → Turn C) (k : ℕ) (t : Trip C) → is_running (drive n turns k t).1 ≡ false
  unfolding drive
  drive_settles zero turns k t = refl
  drive_settles (suc n) turns k t = ground (arith, drive_settles n turns (suc k) t)

  drive_held :
      (n : ℕ) (turns : ℕ → Turn C) (k : ℕ) (t : Trip C) → (drive n turns k t).0.held ≡ t.held
  unfolding drive
  drive_held zero turns k t = refl
  drive_held (suc n) turns k t = ground (arith, drive_held n turns (suc k) t)

  enter_settles : (t : Trip C) → is_running (enter_active t).1 ≡ false
  unfolding enter_active transition can_transition
  enter_settles t = ground (arith)

  enter_held : (t : Trip C) → (enter_active t).0.held ≡ t.held
  unfolding enter_active transition can_transition
  enter_held t = ground (arith)

  acquire_settles : (c : Clocks) (t : Trip C) → is_running (acquire c t).1 ≡ false
  unfolding acquire
  acquire_settles c t = ground (arith)

  pub tree_settles :
      (c : Clocks) (turns : ℕ → Turn C) (t : Trip C) → is_running (tick (tree c turns) t).1 ≡ false
  unfolding tree tick tick_all
  tree_settles c turns t =
      let (t1, a1) = acquire c t in
      let (t2, a2) = enter_active t1 in
      let (t3, a3) = drive max_drive_ticks turns 0 t2 in
      settles_then t1 a1 _ _ (acquire_settles c t) (
        settles_then t2 a2 _ _ (enter_settles t1)
          (settles_then t3 a3 _ _ (drive_settles max_drive_ticks turns 0 t2) refl))

  after_held :
      (b : Bool) (s : Trip C) (a : Answer) (name : String) (rest : Trip C × Answer × String)
      → s.held ≡ b
      → rest.0.held ≡ b
      → (and_then s a name rest).0.held ≡ b
  after_held b s (raised e) name rest h k = h
  after_held b s (returned success) name rest h k = k
  after_held b s (returned failure) name rest h k = h
  after_held b s (returned running) name rest h k = h

  -- where the permission is granted, it is held until the tree ends
  pub tree_held :
      (c : Clocks) (turns : ℕ → Turn C) (t : Trip C)
      → (acquire c t).0.held ≡ true
      → (tick (tree c turns) t).0.held ≡ true
  unfolding tree tick tick_all
  tree_held c turns t h =
      let (t1, a1) = acquire c t in
      let (t2, a2) = enter_active t1 in
      let (t3, a3) = drive max_drive_ticks turns 0 t2 in
      let held2 = enter_held t1 ∙ h in
      let held3 = drive_held max_drive_ticks turns 0 t2 ∙ held2 in
      after_held true t1 a1 _ _ h
        (after_held true t2 a2 _ _ held2 (after_held true t3 a3 _ _ held3 held3))

  -- where it is refused, the tree ends with the state that the refusal left
  pub tree_refused :
      (c : Clocks) (turns : ℕ → Turn C) (t : Trip C)
      → (acquire c t).0.held ≡ false
      → (tick (tree c turns) t).0 ≡ (acquire c t).0
  unfolding tree tick tick_all acquire
  tree_refused c turns t h = rw h refl
