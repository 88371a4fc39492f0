-- ===== src/Services/Update/Runs.antt =====
-- Any sequence of operations on the slots.
use droid_os.Prelude.{String, ◌≡◌, Bool, true, not, ◌&&◌, List, [], ◌∷◌, if◌then◌else◌, arith}
use droid_os.Services.Update.{
  same_slot, Update, BundleFile, get_slot, has_text, bundle_version, install, confirm_boot_health,
  rollback,
}

pub data Step (P : Type 0) : Type 0 where
  installs : BundleFile P → Step P
  confirms : Bool → Step P
  rolls_back : Step P

-- The active slot holds a system, and so does the slot that boots next.
abbrev pub is_bootable : Update → Bool
is_bootable u =
    has_text (get_slot u.uinfo u.uinfo.active_slot).version
    && has_text (get_slot u.uinfo u.uinfo.next_boot).version

module _ {P : Type 0} (digest : P → String) (own : String) where
  unfoldable pub apply : Step P → Update → Update
  apply (installs f) u = (install digest f u).0
  apply (confirms healthy) u = (confirm_boot_health own healthy u).0
  apply rolls_back u = (rollback u).0

  unfoldable pub run : List (Step P) → Update → Update
  unfolding apply
  run [] u = u
  run (s ∷ ss) u = run ss (apply s u)

  -- A bundle names its version, and a failed health check follows an installation: the next boot is
  -- not the active slot.
  abbrev pub is_due : Step P → Update → Bool
  is_due (installs f) u = has_text (bundle_version digest f)
  is_due (confirms healthy) u =
      if healthy then true else not (same_slot u.uinfo.next_boot u.uinfo.active_slot)
  is_due rolls_back u = true

  unfoldable pub all_due : List (Step P) → Update → Bool
  all_due [] u = true
  all_due (s ∷ ss) u = is_due s u && all_due ss (apply s u)

  step-bootable :
      (s : Step P) (u : Update)
      → is_due s u ≡ true
      → is_bootable u ≡ true
      → is_bootable (apply s u) ≡ true
  unfolding apply install confirm_boot_health rollback
  step-bootable (installs f) u due h = ground (arith, due, h)
  step-bootable (confirms healthy) u due h = ground (arith, due, h)
  step-bootable rolls_back u due h = ground (arith, h)

  -- A run that starts where the active slot and the one that boots next hold a system, in which each
  -- bundle names a version and each failed health check follows an installation, ends where the active
  -- slot and the one that boots next hold a system.
  pub run-bootable :
      (ss : List (Step P)) (u : Update)
      → all_due ss u ≡ true
      → is_bootable u ≡ true
      → is_bootable (run ss u) ≡ true
  unfolding run all_due
  run-bootable [] u due h = h
  run-bootable (s ∷ ss) u due h =
      ground (arith, due, step-bootable s u, run-bootable ss (apply s u), h)
