-- ===== src/Body/Loader.antt =====
-- `src/droidos/body/loader.py`: discovering, loading, validating and selecting body packages. A file is
-- what `miniyaml` reads from it; limits, controllers and diagnostic rules are left out.
pub mod Committed
pub mod Valid
mod Examples
use droid_os.Prelude.{
  String, Bool, true, false, not, ◌&&◌, ◌||◌, Option, none, some, List, [], ◌∷◌, ◌++◌, collect,
  contains, keep, map, sorted, or_text, lookup, str_eq, is_some, Result, ok, err, if◌then◌else◌,
}
use droid_os.Body.Capabilities.{Capabilities, Value, truth, category}
use droid_os.Body.Manifest.{
  BodyManifest, BodyError, GaitPolicySpec, ManifestFile, missing, no_package, unknown_body,
  bad_backend, read_manifest,
}

-- A directory of the bodies: its manifest, its capabilities and the ids of its declared sensors.
pub record Package : Type 0 where
  pub manifest : ManifestFile
  pub capabilities : Capabilities
  pub sensor_ids : List String

pub data Issue : Type 0 where
  undeclared_sensor : String → Issue
  biped_cannot_walk cannot_roll : Issue
  no_gait_policy no_checksum other_revision not_approved : Issue
  placeholder_signature : Issue

pub record LoadedBody : Type 0 where
  pub manifest : BodyManifest
  pub capabilities : Capabilities
  pub sensor_ids : List String
  pub backend_kind : String
  pub issues : List Issue

-- A selection, of which the loader reads this.
pub record Selection : Type 0 where
  pub body_id : String
  pub backend : String

-- A file with a selection: it is not there, it has no body's id, or it has one.
pub data SelectionFile : Type 0 where
  absent without_body : SelectionFile
  selects : (body_id : String) → (backend : Option String) → SelectionFile

pub record BodyManager : Type 0 where
  pub bodies : List (String × Package)
  pub body_select_file : SelectionFile
  pub default_body_select_file : SelectionFile

abbrev default_body_selection : Selection
default_body_selection = record { body_id = "ig-mk1"; backend = "simulation" }

abbrev has_manifest : ManifestFile → Bool
has_manifest missing = false
has_manifest _ = true

unfoldable pub available_bodies : BodyManager → List String
available_bodies m = sorted (
    collect (λ (p : String × Package). has_manifest p.1.manifest) (λ (p : String × Package). p.0)
      m.bodies)

-- the selection of one file, or the next
abbrev selected_or : SelectionFile → Selection → Selection
selected_or (selects b k) next =
    if str_eq b ""
    then next
    else record { body_id = b; backend = or_text k default_body_selection.backend }
selected_or _ next = next

unfoldable pub selection : BodyManager → Selection
selection m =
    selected_or m.body_select_file (selected_or m.default_body_select_file default_body_selection)

-- `loco.get(key) is False`
abbrev is_false : Option Value → Bool
is_false (some (truth b)) = not b
is_false _ = false

abbrev issue_if : Bool → Issue → List Issue
issue_if b i = if b then i ∷ [] else []

abbrev gait_issues : BodyManifest → String → Option GaitPolicySpec → List Issue
gait_issues m backend none = no_gait_policy ∷ []
gait_issues m backend (some g) =
    issue_if (str_eq g.checksum "") no_checksum
    ++ issue_if
        (not (str_eq g.supported_body_revision "")
          && not (str_eq g.supported_body_revision m.revision))
        other_revision
    ++ issue_if (str_eq backend "physical" && not g.approved_for_physical) not_approved

-- `starts_with` is Python's `str.startswith`
module _ (starts_with : (prefix s : String) → Bool) where
  abbrev is_placeholder : Option String → Bool
  is_placeholder none = true
  is_placeholder (some v) = starts_with "PLACEHOLDER" v

  -- `_static_validate`
  unfoldable pub static_validate : BodyManifest → Capabilities → List String → String → List Issue
  unfolding category
  static_validate m c declared backend =
      let loco = category c "locomotion" in
      collect (λ s. not (contains s declared)) (λ s. undeclared_sensor s) m.required_sensors
      ++ (issue_if (str_eq m.locomotion_type "biped" && is_false (lookup "walk" loco))
            biped_cannot_walk
          ++ (issue_if
                (contains m.locomotion_type ("differential" ∷ "omni" ∷ "tracked" ∷ [])
                  && is_false (lookup "roll" loco))
                cannot_roll
              ++ ((if str_eq m.locomotion_type "biped"
                    then gait_issues m backend m.gait_policy
                    else [])
                  ++ issue_if (is_placeholder m.signature) placeholder_signature)))

  abbrev loaded : Package → String → Result BodyError BodyManifest → Result BodyError LoadedBody
  loaded p backend (err e) = err e
  loaded p backend (ok m) = ok (record {
    manifest = m;
    capabilities = p.capabilities;
    sensor_ids = p.sensor_ids;
    backend_kind = backend;
    issues = static_validate m p.capabilities p.sensor_ids backend;
  })

  abbrev load_package : Option Package → String → Result BodyError LoadedBody
  load_package none backend = err no_package
  load_package (some p) backend = loaded p backend (read_manifest p.manifest)

  unfoldable pub load : BodyManager → String → String → Result BodyError LoadedBody
  unfolding static_validate read_manifest
  load m body_id backend = load_package (lookup body_id m.bodies) backend

  unfoldable pub load_active : BodyManager → Result BodyError LoadedBody
  unfolding load selection
  load_active m = let s = selection m in load m s.body_id s.backend

-- What `set_active` raises.
pub data Failure : Type 0 where
  body_error : BodyError → Failure
  os_error : String → Failure

-- `stored` is what writing a selection gives: what the YAML file reads as afterwards, which need not be
-- the selection, and the exception of the write, if it raises
module _ (starts_with : (prefix s : String) → Bool)
    (stored : Selection → SelectionFile × Option String) where
  abbrev pub write :
      BodyManager
      → Selection
      → SelectionFile × Option String
      → BodyManager × Result Failure Selection
  write m s (file, none) = (record m { body_select_file = file }, ok s)
  write m s (file, some e) = (record m { body_select_file = file }, err (os_error e))

  -- the selection is written if the body loads
  abbrev pub commit :
      BodyManager → Selection → Result BodyError LoadedBody → BodyManager × Result Failure Selection
  commit m s (err e) = (m, err (body_error e))
  commit m s (ok b) = write m s (stored s)

  abbrev pub with_backend :
      BodyManager → Selection → Option String → BodyManager × Result Failure Selection
  with_backend m s none = commit m s (load starts_with m s.body_id s.backend)
  with_backend m s (some k) =
      if str_eq k ""
      then commit m s (load starts_with m s.body_id s.backend)
      else if not (contains k ("simulation" ∷ "physical" ∷ []))
      then (m, err (body_error (bad_backend k)))
      else commit m (record s { backend = k }) (load starts_with m s.body_id k)

  unfoldable pub set_active :
      BodyManager → String → Option String → BodyManager × Result Failure Selection
  unfolding load selection available_bodies
  set_active m body_id backend =
      if not (contains body_id (available_bodies m))
      then (m, err (body_error (unknown_body body_id)))
      else with_backend m (record (selection m) { body_id = body_id }) backend
