-- ===== src/Services/Update/Slots.antt =====
-- Single operations on the slots.
use droid_os.Prelude.{String, ◌≡◌, true, false, none, arith}
use droid_os.Services.Update.{
  slot_b, Update, BundleFile, get_slot, default_state, verify_bundle, install, confirm_boot_health,
  failed,
}

module _ {P : Type 0} (digest : P → String) where
  -- Installing never touches the running system: whether the bundle is accepted or refused, the
  -- active slot stays active, with its contents and its version.
  pub install_keeps_active :
      (f : BundleFile P) (u : Update)
      → ((install digest f u).0.uinfo.active_slot ≡ u.uinfo.active_slot)
        × (get_slot (install digest f u).0.uinfo u.uinfo.active_slot
            ≡ get_slot u.uinfo u.uinfo.active_slot)
        × ((install digest f u).0.uinfo.running_version ≡ u.uinfo.running_version)
  unfolding install
  install_keeps_active f u = ground (arith)

  -- A bundle that is refused changes nothing but the last result: neither a slot nor the next boot.
  pub refused_install :
      (f : BundleFile P) (u : Update)
      → (verify_bundle digest f).0 ≡ false
      → ((install digest f u).1 ≡ failed (verify_bundle digest f).1)
        × (record (install digest f u).0.uinfo { last_result = u.uinfo.last_result } ≡ u.uinfo)
  unfolding install
  refused_install f u h = ground (arith, h)

  -- An accepted update that does not boot is undone: after the failed health check the slot, its
  -- contents and the version are those from before the installation, and the next boot is that slot.
  pub failed_boot_undoes_install :
      (own : String) (f : BundleFile P) (u : Update)
      → (verify_bundle digest f).0 ≡ true
      → let v = (confirm_boot_health own false (install digest f u).0).0.uinfo in
        (v.active_slot ≡ u.uinfo.active_slot)
        × (v.next_boot ≡ u.uinfo.active_slot)
        × (get_slot v u.uinfo.active_slot ≡ get_slot u.uinfo u.uinfo.active_slot)
        × (v.running_version ≡ u.uinfo.running_version)
  unfolding install confirm_boot_health
  failed_boot_undoes_install own f u h = ground (arith, h)

-- A failed health check without an installed update switches a droid in its default state to the
-- other slot, which holds no system.
pub idle_check_activates_empty_slot :
    (own : String) (u : Update)
    → u.uinfo ≡ default_state own
    → let v = (confirm_boot_health own false u).0.uinfo in
      (v.active_slot ≡ slot_b) × ((get_slot v v.active_slot).version ≡ none)
unfolding confirm_boot_health
idle_check_activates_empty_slot own u h = ground (arith, h)
