-- ===== src/Body/Loader/Examples.antt =====
-- Selecting a body that is installed.
use droid_os.Prelude.{◌≡◌, is_nil, String, Bool, false, Option, none, some, [], ◌∷◌}
use droid_os.Body.Manifest.{Document, BodyManifest, holds}
use droid_os.Body.Loader.{Selection, SelectionFile, selects, BodyManager, absent, static_validate}
use droid_os.Body.Loader.Valid.{is_valid, static_validate-is_valid}

abbrev rover : Document
rover = record {
  body_id = some "r2-mk1";
  name = none;
  model_family = none;
  revision = some "1";
  interface_revision = none;
  locomotion_type = some "differential";
  hardware_profile = none;
  required_sensors = [];
  required_actuators = [];
  gait_policy = none;
  signature = some (some "sig");
}

abbrev unsigned : BodyManifest
unsigned = record {
  body_id = "r2-mk1";
  name = "R2";
  model_family = "unknown";
  revision = "1";
  interface_revision = "";
  locomotion_type = "biped";
  hardware_profile = "";
  required_sensors = "imu" ∷ [];
  required_actuators = [];
  gait_policy = none;
  signature = none;
}

abbrev manager : BodyManager
manager = record {
  bodies =
      (
        "r2-mk1",
        record { manifest = holds rover; capabilities = record { raw = [] }; sensor_ids = [] },
      )
      ∷ [];
  body_select_file = absent;
  default_body_select_file = absent;
}

abbrev never : String → String → Bool
never p s = false

-- every write succeeds, and reads back
abbrev kept : Selection → SelectionFile × Option String
kept s = (selects s.body_id (some s.backend), none)

static_validate-is_valid_example :
    is_nil (static_validate never unsigned (record { raw = [] }) [] "physical")
    ≡ is_valid never unsigned (record { raw = [] }) [] "physical"
static_validate-is_valid_example =
    static_validate-is_valid never unsigned (record { raw = [] }) [] "physical"
