-- ===== src/Services/Update/Examples.antt =====
-- A droid in its default state, and a signed bundle.
use droid_os.Prelude.{String, ◌≡◌, refl, true, false, some, [], ◌∷◌, List}
use droid_os.Services.Update.{
  slot_a, missing, Update, BundleFile, document, default_state, get_slot, verify_bundle, install,
  confirm_boot_health,
}
use droid_os.Services.Update.Slots
use droid_os.Services.Update.Runs.{
  Step, installs, confirms, rolls_back, run, all_due, is_bootable, run-bootable,
}

abbrev digest : String → String
digest s = s

abbrev fresh : Update
fresh = record { uinfo = default_state "1.0"; file = missing; writable = true }

abbrev bundle : BundleFile String
bundle = document (record {
  compatible = some "droidos";
  payload = "files";
  payload_checksum = some "files";
  signature = some "sig";
  version = some "1.1";
})

failed_boot_undoes_install_example :
    let v = (confirm_boot_health "1.0" false (install digest bundle fresh).0).0.uinfo in
    (v.active_slot ≡ slot_a)
    × (v.next_boot ≡ slot_a)
    × (get_slot v slot_a ≡ record { version = some "1.0"; healthy = true })
    × (v.running_version ≡ some "1.0")
unfolding verify_bundle
failed_boot_undoes_install_example = Slots.failed_boot_undoes_install digest "1.0" bundle fresh refl

abbrev steps : List (Step String)
steps = installs bundle ∷ (confirms true ∷ (rolls_back ∷ []))

run-bootable_example : is_bootable (run digest "1.0" steps fresh) ≡ true
unfolding all_due
run-bootable_example = run-bootable digest "1.0" steps fresh refl refl
