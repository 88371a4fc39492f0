-- ===== src/Services/Update.antt =====
-- `src/droidos/services/update.py`: signed bundles, the two slots, the health of a boot and the
-- rollback. The text of a bundle is read and parsed outside the model: a `BundleFile` is what comes of
-- it, a mapping with the keys that the service reads. The digest of a payload and the program's own
-- version are parameters.
pub mod Slots
pub mod Runs
mod Examples
use droid_os.Prelude.{
  String, ◌^^◌, Bool, true, false, not, ◌&&◌, ◌||◌, Option, none, some, str_eq, if◌then◌else◌,
}

pub data SlotName : Type 0 where
  slot_a slot_b : SlotName

abbrev pub same_slot : SlotName → SlotName → Bool
same_slot slot_a slot_a = true
same_slot slot_b slot_b = true
same_slot _ _ = false

abbrev pub other_slot : SlotName → SlotName
other_slot slot_a = slot_b
other_slot slot_b = slot_a

pub record Slot : Type 0 where
  pub version : Option String
  pub healthy : Bool

-- `last_result`
pub data LastResult : Type 0 where
  nothing : LastResult
  verify_failed : String → LastResult
  installed : Option String → SlotName → LastResult
  boot_ok rolled_back_from manual_rollback : SlotName → LastResult

-- `uinfo`
pub record Info : Type 0 where
  pub running_version : Option String
  pub active_slot : SlotName
  pub a : Slot
  pub b : Slot
  pub next_boot : SlotName
  pub last_result : LastResult

-- `update.json`
pub data InfoFile : Type 0 where
  missing unreadable : InfoFile
  written : Info → InfoFile

pub record Update : Type 0 where
  pub uinfo : Info
  pub file : InfoFile
  pub writable : Bool

pub record Bundle (P : Type 0) : Type 0 where
  pub compatible : Option String
  pub payload : P
  pub payload_checksum : Option String
  pub signature : Option String
  pub version : Option String  -- `none` for a missing key

pub data BundleFile (P : Type 0) : Type 0 where
  unread malformed : String → BundleFile P
  document : Bundle P → BundleFile P

pub data Reply : Type 0 where
  installed_in : SlotName → Option String → Reply
  active : SlotName → Reply
  rolled_back_to : SlotName → Reply
  failed : String → Reply

abbrev pub get_slot : Info → SlotName → Slot
get_slot i slot_a = i.a
get_slot i slot_b = i.b

abbrev pub set_slot : Info → SlotName → Slot → Info
set_slot i slot_a s = record i { a = s }
set_slot i slot_b s = record i { b = s }

-- whether a text stands there that is not empty
abbrev pub has_text : Option String → Bool
has_text none = false
has_text (some s) = not (str_eq s "")

abbrev pub is_text : Option String → String → Bool
is_text none t = false
is_text (some s) t = str_eq s t

-- `_default_state`
abbrev pub default_state : String → Info
default_state own = record {
  running_version = some own;
  active_slot = slot_a;
  a = record { version = some own; healthy = true };
  b = record { version = none; healthy = false };
  next_boot = slot_a;
  last_result = nothing;
}

-- `_inactive`
abbrev pub inactive : Update → SlotName
inactive u = other_slot u.uinfo.active_slot

-- `_save`, on the data given
abbrev save : Info → Update → Update
save i u = record u { uinfo = i; file = if u.writable then written i else u.file }

-- `_load`, which `_on_configure` calls
unfoldable pub load : String → Update → Update
load own u = elim u.file [
  | missing ↦ u
  | unreadable ↦ record u { uinfo = default_state own }
  | written i ↦ record u { uinfo = i }
]

abbrev or_unknown : Option String → Option String
or_unknown none = some "unknown"
or_unknown (some v) = some v

abbrev or_package : String → Option String → Option String
or_package own v = if has_text v then v else some own

abbrev checksum_ok : Option String → String → Bool
checksum_ok none digest = true
checksum_ok (some c) digest = str_eq c digest

module _ {P : Type 0} (digest : P → String) where
  -- `verify_bundle`: whether it succeeds, and the reason
  unfoldable pub verify_bundle : BundleFile P → Bool × String
  verify_bundle (unread e) = (false, "cannot read bundle: " ^^ e)
  verify_bundle (malformed e) = (false, "bundle is not a valid DroidOS bundle: " ^^ e)
  verify_bundle (document d) =
      if not (is_text d.compatible "droidos")
      then (false, "bundle is not compatible with DroidOS")
      else if not (checksum_ok d.payload_checksum (digest d.payload))
      then (false, "bundle checksum mismatch")
      else if not (has_text d.signature)
      then (false, "bundle is not signed")
      else (true, "verified")

  -- the version that a bundle is installed under
  abbrev pub bundle_version : BundleFile P → Option String
  bundle_version (document d) = or_unknown d.version
  bundle_version _ = none

  abbrev installed_info : Info → SlotName → Option String → Info
  installed_info i target version =
      record (set_slot i target (record { version = version; healthy = false })) {
        next_boot = target;
        last_result = installed version target;
      }

  unfoldable pub install : BundleFile P → Update → Update × Reply
  unfolding verify_bundle
  install f u =
      let (ok, reason) = verify_bundle f in
      if not ok
      then (save (record u.uinfo { last_result = verify_failed reason }) u, failed reason)
      else (
        save (installed_info u.uinfo (inactive u) (bundle_version f)) u,
        installed_in (inactive u) (bundle_version f),
      )

abbrev booted_info : String → Info → SlotName → Info
booted_info own i booted =
    record (set_slot i booted (record (get_slot i booted) { healthy = true })) {
      active_slot = booted;
      running_version = or_package own (get_slot i booted).version;
      last_result = boot_ok booted;
    }

unfoldable pub confirm_boot_health : String → Bool → Update → Update × Reply
confirm_boot_health own healthy u =
    let booted = u.uinfo.next_boot in
    if healthy then (save (booted_info own u.uinfo booted) u, active booted) else (
      save
          (record u.uinfo {
            next_boot = other_slot booted;
            active_slot = other_slot booted;
            last_result = rolled_back_from booted;
          })
          u,
      rolled_back_to (other_slot booted),
    )

unfoldable pub rollback : Update → Update × Reply
rollback u =
    let other = inactive u in
    if not (has_text (get_slot u.uinfo other).version)
    then (u, failed "no alternative slot to roll back to")
    else (
      save
          (record u.uinfo {
            active_slot = other;
            next_boot = other;
            running_version = (get_slot u.uinfo other).version;
            last_result = manual_rollback other;
          })
          u,
      active other,
    )
