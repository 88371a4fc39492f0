-- ===== src/Gait/Policy/Cleared.antt =====
-- gait/policy.py: when a policy is returned without an issue.
use droid_os.Prelude.{
  String, Bool, true, false, not, ◌&&◌, ◌||◌, ◌≡◌, refl, List, [], ◌++◌, Option, none, some,
  contains, str_eq, is_nil, is_nil→nil, keep, Result, ok, arith, Bool-cases, inl, inr, ap, subst,
}
use droid_os.Body.Manifest.{GaitPolicySpec}
use droid_os.Body.Loader.{LoadedBody}
use droid_os.Gait.Policy.Types.{
  Floats, GaitPolicy, PolicyFile, missing, json_file, onnx_file, absent, invalid, holds, Issue,
  JsonError,
}
use droid_os.Gait.Policy.Loading.{
  validated, is_wrong_checksum, one_if, read_policy, load_declared, load_for_body, load_cpg,
  load_onnx, policy_of_network, no_descriptor,
}

-- The policy fits the body, by the rules of the specification.
pub record IsCleared {F : Type 0} (body : LoadedBody) (sensor_types : List String)
    (p : GaitPolicy F) : Type 0 where
  pub same_body : (str_eq p.body_id "" || str_eq p.body_id body.manifest.body_id) ≡ true
  pub same_revision :
      (str_eq p.supported_body_revision ""
        || str_eq p.supported_body_revision body.manifest.revision)
      ≡ true
  pub known_joints : keep (λ j. not (contains j body.manifest.required_actuators)) p.action ≡ []
  pub balanced : (not (contains "base_lin_vel" p.observation) || contains "imu" sensor_types) ≡ true
  pub approved : (not (str_eq body.backend_kind "physical") || p.approved_for_physical) ≡ true

-- no issue was added
one_if-nil :
    (a b c d : Bool) (i j k l : Issue)
    → one_if a i ++ (one_if b j ++ (one_if c k ++ one_if d l)) ≡ []
    → (a ≡ false) × (b ≡ false) × (c ≡ false) × (d ≡ false)
one_if-nil true b c d i j k l h = cc
one_if-nil false true c d i j k l h = cc
one_if-nil false false true d i j k l h = cc
one_if-nil false false false true i j k l h = cc
one_if-nil false false false false i j k l h = (refl, refl, refl, refl)

module _ (fl : Floats) where
  open fl use {F}

  validated-same :
      (body : LoadedBody) (sensor_types : List String) (p q : GaitPolicy F)
      → (validated fl body sensor_types p).0 ≡ some q
      → p ≡ q
  unfolding validated
  validated-same body sensor_types p q h =
      let m = body.manifest in
      elim (Bool-cases (not (str_eq p.body_id "") && not (str_eq p.body_id m.body_id))) [
        | inl other ↦ cc (rw other at h)
        | inr same ↦ cc (rw same at h)
      ]

  validated-IsCleared :
      (body : LoadedBody) (sensor_types : List String) (p : GaitPolicy F)
      → (validated fl body sensor_types p).1 ≡ []
      → IsCleared body sensor_types p
  unfolding validated
  validated-IsCleared body sensor_types p h =
      let m = body.manifest in
      elim (Bool-cases (not (str_eq p.body_id "") && not (str_eq p.body_id m.body_id))) [
        | inl other ↦ cc (rw other at h)
        | inr same ↦
            let clear =
              one_if-nil
                (not (str_eq p.supported_body_revision "")
                  && not (str_eq p.supported_body_revision m.revision))
                (not (is_nil (keep (λ j. not (contains j m.required_actuators)) p.action)))
                (contains "base_lin_vel" p.observation && not (contains "imu" sensor_types))
                (str_eq body.backend_kind "physical" && not p.approved_for_physical) _ _ _ _
                (rw same at h) in
            record {
              same_body = ground (arith, same);
              same_revision = ground (arith, clear.0);
              known_joints = is_nil→nil _ (ground (arith, clear.1));
              balanced = ground (arith, clear.2);
              approved = ground (arith, clear.3);
            }
      ]

  -- the checksum of the file's bytes
  abbrev pub hash_of : PolicyFile F → String
  hash_of missing = ""
  hash_of (json_file actual doc) = actual
  hash_of (onnx_file actual session beside) = actual

  -- what a policy that was read without an issue, from a file with this checksum, owes to the manifest
  abbrev pub IsApproved : GaitPolicySpec → LoadedBody → List String → String → GaitPolicy F → Type 0
  IsApproved spec body sensor_types actual p =
      ((str_eq spec.checksum "" || str_eq spec.checksum actual) ≡ true)
      × (p.checksum ≡ actual)
      × (p.approved_for_physical ≡ spec.approved_for_physical)
      × IsCleared body sensor_types p

  validated-IsApproved :
      (spec : GaitPolicySpec) (body : LoadedBody) (sensor_types : List String) (actual : String)
      (p q : GaitPolicy F)
      → is_wrong_checksum spec actual ≡ false
      → p.checksum ≡ actual
      → p.approved_for_physical ≡ spec.approved_for_physical
      → ◌≡◌ {A = Result JsonError (Option (GaitPolicy F) × List Issue)}
          (ok (validated fl body sensor_types p))
          (ok (some q, []))
      → IsApproved spec body sensor_types actual q
  unfolding is_wrong_checksum
  validated-IsApproved spec body sensor_types actual p q right hashed approval h =
      let read : validated fl body sensor_types p ≡ (some q, []) = cc in
      let same = validated-same body sensor_types p q (ap (λ r. r.0) read) in
      subst (IsApproved spec body sensor_types actual) same (
        ground (arith, right),
        hashed,
        approval,
        validated-IsCleared body sensor_types p (ap (λ r. r.1) read),
      )

  read_policy-IsApproved :
      (file : PolicyFile F) (rate : F) (spec : GaitPolicySpec) (body : LoadedBody)
      (sensor_types : List String) (p : GaitPolicy F)
      → read_policy fl file rate spec body sensor_types ≡ ok (some p, [])
      → IsApproved spec body sensor_types (hash_of file) p
  unfolding read_policy load_cpg load_onnx policy_of_network
  read_policy-IsApproved missing rate spec body sensor_types p h = cc
  read_policy-IsApproved (json_file actual none) rate spec body sensor_types p h =
      elim (Bool-cases (is_wrong_checksum spec actual)) [
        | inl wrong ↦ cc (rw wrong at h)
        | inr right ↦ cc (rw right at h)
      ]
  read_policy-IsApproved (json_file actual (some doc)) rate spec body sensor_types p h =
      elim (Bool-cases (is_wrong_checksum spec actual)) [
        | inl wrong ↦ cc (rw wrong at h)
        | inr right ↦
            validated-IsApproved spec body sensor_types actual (load_cpg fl doc spec actual) p right
              refl refl (rw right at h)
      ]
  read_policy-IsApproved (onnx_file actual session absent) rate spec body sensor_types p h =
      elim (Bool-cases (is_wrong_checksum spec actual)) [
        | inl wrong ↦ cc (rw wrong at h)
        | inr right ↦
            validated-IsApproved spec body sensor_types actual
              (policy_of_network fl (no_descriptor fl) session rate spec actual) p right refl refl
              (rw right at h)
      ]
  read_policy-IsApproved (onnx_file actual session invalid) rate spec body sensor_types p h =
      elim (Bool-cases (is_wrong_checksum spec actual)) [
        | inl wrong ↦ cc (rw wrong at h)
        | inr right ↦ cc (rw right at h)
      ]
  read_policy-IsApproved (onnx_file actual session (holds doc)) rate spec body sensor_types p h =
      elim (Bool-cases (is_wrong_checksum spec actual)) [
        | inl wrong ↦ cc (rw wrong at h)
        | inr right ↦
            validated-IsApproved spec body sensor_types actual
              (policy_of_network fl doc session rate spec actual) p right refl refl (rw right at h)
      ]

  load_declared-IsApproved :
      (o : Option GaitPolicySpec) (file : PolicyFile F) (rate : F) (body : LoadedBody)
      (sensor_types : List String) (p : GaitPolicy F)
      → body.manifest.gait_policy ≡ o
      → load_declared fl o file rate body sensor_types ≡ ok (some p, [])
      → (spec : GaitPolicySpec) × (body.manifest.gait_policy ≡ some spec)
        × IsApproved spec body sensor_types (hash_of file) p
  unfolding load_declared
  load_declared-IsApproved none file rate body sensor_types p e h = cc
  load_declared-IsApproved (some spec) file rate body sensor_types p e h =
      (spec, e, read_policy-IsApproved file rate spec body sensor_types p h)

  -- A policy that is returned without an issue is the one of the manifest: its file hashes to the
  -- manifest's checksum, if the manifest gives one, its approval is the manifest's, it is for this
  -- body and revision, if it names any, it drives joints of the body only, it has the imu that it
  -- needs, and on a physical backend it is approved for physical operation.
  pub load_for_body-IsCleared :
      (file : PolicyFile F) (rate : F) (body : LoadedBody) (sensor_types : List String)
      (p : GaitPolicy F)
      → load_for_body fl file rate body sensor_types ≡ ok (some p, [])
      → (spec : GaitPolicySpec) × (body.manifest.gait_policy ≡ some spec)
        × IsApproved spec body sensor_types (hash_of file) p
  unfolding load_for_body
  load_for_body-IsCleared file rate body sensor_types p h =
      load_declared-IsApproved body.manifest.gait_policy file rate body sensor_types p refl h
