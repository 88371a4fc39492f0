-- ===== src/Gait/Policy/Loading.antt =====
-- gait/policy.py: loading a policy and validating it against the body.
use droid_os.Prelude.{
  String, Bool, not, ◌&&◌, List, [], ◌∷◌, ◌++◌, Option, none, some, contains, str_eq, or_text,
  is_nil, keep, if◌then◌else◌, Result, ok, err,
}
use droid_os.Body.Manifest.{GaitPolicySpec}
use droid_os.Body.Loader.{LoadedBody}
use droid_os.Gait.Policy.Types.{
  Floats, onnx, cpg, GaitPolicy, Descriptor, JsonFile, absent, invalid, holds, PolicyFile, missing,
  json_file, onnx_file, Issue, no_policy, not_json, needs_imu, not_approved, file_not_found,
  checksum_mismatch, wrong_body, wrong_revision, unknown_joints, JsonError, sidecar_invalid,
}

abbrev pub one_if : Bool → Issue → List Issue
one_if b issue = if b then issue ∷ [] else []

unfoldable pub is_wrong_checksum : GaitPolicySpec → String → Bool
is_wrong_checksum spec actual = not (str_eq spec.checksum "") && not (str_eq spec.checksum actual)

module _ (fl : Floats) where
  open fl use {F, literal}

  unfoldable pub load_cpg : Descriptor F → GaitPolicySpec → String → GaitPolicy F
  load_cpg doc spec checksum = record {
    body_id = or_text doc.body_id "";
    supported_body_revision = or_text doc.supported_body_revision "";
    control_rate_hz = elim doc.control_rate_hz [ none ↦ literal "0.0" | some rate ↦ rate ];
    observation = doc.observation;
    action = doc.action;
    safety_envelope = doc.safety_envelope;
    runtime = cpg;
    checksum = checksum;
    approved_for_physical = spec.approved_for_physical;
    params = doc.gait;
    phase = literal "0.0";
    session = none;
  }

  unfoldable pub no_descriptor : Descriptor F
  no_descriptor = record {
    body_id = none;
    supported_body_revision = none;
    control_rate_hz = none;
    observation = [];
    action = [];
    safety_envelope = [];
    gait = [];
  }

  -- The control rate is the manifest's, a float that `GaitPolicySpec` leaves out here.
  unfoldable pub policy_of_network :
      Descriptor F → Option (List F → List F) → F → GaitPolicySpec → String → GaitPolicy F
  policy_of_network doc session rate spec checksum = record {
    body_id = or_text doc.body_id "";
    supported_body_revision = or_text doc.supported_body_revision spec.supported_body_revision;
    control_rate_hz = rate;
    observation = doc.observation;
    action = doc.action;
    safety_envelope = doc.safety_envelope;
    runtime = onnx;
    checksum = checksum;
    approved_for_physical = spec.approved_for_physical;
    params = doc.gait;
    phase = literal "0.0";
    session = session;
  }

  unfoldable pub load_onnx :
      Option (List F → List F)
      → JsonFile F
      → F
      → GaitPolicySpec
      → String
      → Result JsonError (GaitPolicy F)
  load_onnx session absent rate spec checksum =
      ok (policy_of_network no_descriptor session rate spec checksum)
  load_onnx session invalid rate spec checksum = err sidecar_invalid
  load_onnx session (holds doc) rate spec checksum =
      ok (policy_of_network doc session rate spec checksum)

  -- Checks 3 to 6, on a policy that was read.
  unfoldable pub validated :
      LoadedBody → List String → GaitPolicy F → Option (GaitPolicy F) × List Issue
  validated body sensor_types p =
      let m = body.manifest in
      let missing_joints = keep (λ j. not (contains j m.required_actuators)) p.action in
      if not (str_eq p.body_id "") && not (str_eq p.body_id m.body_id)
      then (none, wrong_body p.body_id m.body_id ∷ [])
      else (
        some p,
        one_if
              (not (str_eq p.supported_body_revision "")
                && not (str_eq p.supported_body_revision m.revision))
              (wrong_revision p.supported_body_revision m.revision)
            ++ (one_if (not (is_nil missing_joints)) (unknown_joints missing_joints)
                ++ (one_if
                      (contains "base_lin_vel" p.observation && not (contains "imu" sensor_types))
                      needs_imu
                    ++ one_if (str_eq body.backend_kind "physical" && not p.approved_for_physical)
                        not_approved)),
      )

  -- Check 1 and the descriptor of check 2, for each kind of file.
  unfoldable pub read_policy :
      PolicyFile F
      → F
      → GaitPolicySpec
      → LoadedBody
      → List String
      → Result JsonError (Option (GaitPolicy F) × List Issue)
  read_policy missing rate spec body sensor_types = ok (none, file_not_found spec.file ∷ [])
  read_policy (json_file actual content) rate spec body sensor_types =
      if is_wrong_checksum spec actual
      then ok (none, checksum_mismatch spec.checksum actual ∷ [])
      else elim content [
        | none ↦ ok (none, not_json ∷ [])
        | some doc ↦ ok (validated body sensor_types (load_cpg doc spec actual))
      ]
  read_policy (onnx_file actual session sidecar) rate spec body sensor_types =
      if is_wrong_checksum spec actual
      then ok (none, checksum_mismatch spec.checksum actual ∷ [])
      else elim (load_onnx session sidecar rate spec actual) [
        | err e ↦ err e
        | ok p ↦ ok (validated body sensor_types p)
      ]

  -- by whether the body declares a policy
  unfoldable pub load_declared :
      Option GaitPolicySpec
      → PolicyFile F
      → F
      → LoadedBody
      → List String
      → Result JsonError (Option (GaitPolicy F) × List Issue)
  load_declared none file rate body sensor_types = ok (none, no_policy ∷ [])
  load_declared (some spec) file rate body sensor_types =
      read_policy file rate spec body sensor_types

  unfoldable pub load_for_body :
      PolicyFile F
      → F
      → LoadedBody
      → List String
      → Result JsonError (Option (GaitPolicy F) × List Issue)
  load_for_body file rate body sensor_types =
      load_declared body.manifest.gait_policy file rate body sensor_types
