-- ===== src/Body/Manifest.antt =====
-- `src/droidos/body/manifest.py`: the manifest of a body package, read from a parsed document. Of the
-- other files of a package, what the loader reads is in Body.Loader; rates and limits are floats and
-- left out.
use droid_os.Prelude.{
  String, Bool, Option, none, some, List, [], ◌∷◌, contains, or_text, Result, ok, err,
  if◌then◌else◌,
}

pub record GaitPolicySpec : Type 0 where
  pub file : String
  pub checksum : String
  pub format : String
  pub supported_body_revision : String
  pub approved_for_physical : Bool

-- The keys of the document, where they are there; `none` also for an empty policy or signature.
pub record GaitDocument : Type 0 where
  pub file : Option String
  pub checksum : Option String
  pub format : Option String
  pub supported_body_revision : Option String
  pub approved_for_physical : Bool

pub record Document : Type 0 where
  pub body_id : Option String
  pub name : Option String
  pub model_family : Option String
  pub revision : Option String
  pub interface_revision : Option String
  pub locomotion_type : Option String
  pub hardware_profile : Option String
  pub required_sensors : List String
  pub required_actuators : List String
  pub gait_policy : Option GaitDocument
  pub signature : Option (Option String)  -- its `value`

-- `manifest.yaml`
pub data ManifestFile : Type 0 where
  missing no_mapping : ManifestFile
  holds : Document → ManifestFile

pub record BodyManifest : Type 0 where
  pub body_id : String
  pub name : String
  pub model_family : String
  pub revision : String
  pub interface_revision : String
  pub locomotion_type : String
  pub hardware_profile : String
  pub required_sensors : List String
  pub required_actuators : List String
  pub gait_policy : Option GaitPolicySpec
  pub signature : Option String  -- its `value`; `none` without a signature

-- `BodyError`
pub data BodyError : Type 0 where
  no_package no_manifest not_a_mapping : BodyError
  missing_field unknown_locomotion unknown_body bad_backend : String → BodyError

abbrev valid_locomotion : List String
valid_locomotion = "biped" ∷ "differential" ∷ "omni" ∷ "tracked" ∷ "stationary" ∷ "manipulator" ∷ []

-- `GaitPolicySpec.from_dict`
unfoldable pub gait_of : Option GaitDocument → Option GaitPolicySpec
gait_of none = none
gait_of (some d) = some (record {
  file = or_text d.file "";
  checksum = or_text d.checksum "";
  format = or_text d.format "onnx";
  supported_body_revision = or_text d.supported_body_revision "";
  approved_for_physical = d.approved_for_physical;
})

abbrev signature_of : Option (Option String) → Option String
signature_of none = none
signature_of (some v) = some (or_text v "")

abbrev built : String → String → Document → BodyManifest
built body_id locomotion d = record {
  body_id = body_id;
  name = or_text d.name body_id;
  model_family = or_text d.model_family "unknown";
  revision = or_text d.revision "";
  interface_revision = or_text d.interface_revision "";
  locomotion_type = locomotion;
  hardware_profile = or_text d.hardware_profile "";
  required_sensors = d.required_sensors;
  required_actuators = d.required_actuators;
  gait_policy = gait_of d.gait_policy;
  signature = signature_of d.signature;
}

abbrev checked : BodyManifest → Result BodyError BodyManifest
checked m =
    if contains m.locomotion_type valid_locomotion
    then ok m
    else err (unknown_locomotion m.locomotion_type)

-- the two keys that have to be there
abbrev with_keys : Option String → Option String → Document → Result BodyError BodyManifest
with_keys none locomotion d = err (missing_field "body_id")
with_keys (some b) none d = err (missing_field "locomotion_type")
with_keys (some b) (some l) d = checked (built b l d)

-- `BodyManifest.load`
unfoldable pub read_manifest : ManifestFile → Result BodyError BodyManifest
unfolding gait_of
read_manifest missing = err no_manifest
read_manifest no_mapping = err not_a_mapping
read_manifest (holds d) = with_keys d.body_id d.locomotion_type d
