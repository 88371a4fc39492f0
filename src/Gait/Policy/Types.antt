-- ===== src/Gait/Policy/Types.antt =====
-- gait/policy.py: policies, their files, and the issues of the loader. A policy file is what its bytes
-- hash to and what it parses to, with values of the kinds that the loader expects.
use droid_os.Prelude.{String, Bool, true, ◌≡◌, List, Option}

-- Python's floats. A comparison with nan is false, so that the order is not total, and `le x x` says
-- that `x` is not nan.
pub record Floats : Type 1 where
  pub F : Type 0
  pub lt : F → F → Bool
  pub neg : F → F
  pub abs : F → F
  pub sin : F → F
  pub cos : F → F
  pub add : F → F → F
  pub sub : F → F → F
  pub mul : F → F → F
  pub div : F → F → F
  pub mod_of : F → F → F
  pub pi : F
  pub literal : String → F
  pub le : F → F → Bool
  pub lt_le : (x y : F) → lt x y ≡ true → le x y ≡ true
  pub le_left : (x y : F) → le x y ≡ true → le x x ≡ true
  pub le_right : (x y : F) → le x y ≡ true → le y y ≡ true

pub data Runtime : Type 0 where
  onnx cpg : Runtime

-- `session` is the network's answer to a vector of observations.
pub record GaitPolicy (F : Type 0) : Type 0 where
  pub body_id : String
  pub supported_body_revision : String
  pub control_rate_hz : F
  pub observation : List String
  pub action : List String
  pub safety_envelope : List (String × F)
  pub runtime : Runtime
  pub checksum : String
  pub approved_for_physical : Bool
  pub params : List (String × F)
  pub phase : F
  pub session : Option (List F → List F)

-- The descriptor of a policy, with the keys that are there.
pub record Descriptor (F : Type 0) : Type 0 where
  pub body_id : Option String
  pub supported_body_revision : Option String
  pub control_rate_hz : Option F
  pub observation : List String
  pub action : List String
  pub safety_envelope : List (String × F)
  pub gait : List (String × F)

-- A JSON file: it is not there, it does not parse, or it holds a descriptor.
pub data JsonFile (F : Type 0) : Type 0 where
  absent invalid : JsonFile F
  holds : Descriptor F → JsonFile F

-- The file that the manifest names, where there is one.
pub data PolicyFile (F : Type 0) : Type 0 where
  missing : PolicyFile F
  json_file : String → Option (Descriptor F) → PolicyFile F
  onnx_file : String → Option (List F → List F) → JsonFile F → PolicyFile F

pub data Issue : Type 0 where
  no_policy not_json needs_imu not_approved : Issue
  file_not_found : String → Issue
  checksum_mismatch wrong_body wrong_revision : String → String → Issue
  unknown_joints : List String → Issue

-- `json.JSONDecodeError` of the file beside a network, which the loader does not catch
pub data JsonError : Type 0 where
  sidecar_invalid : JsonError
