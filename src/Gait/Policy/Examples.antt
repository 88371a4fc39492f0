-- ===== src/Gait/Policy/Examples.antt =====
-- gait/policy.py: a policy of one joint, with whole numbers for floats.
use droid_os.Prelude.{◌+◌, ◌≡◌, refl, true, not, [], ◌∷◌, none, some, lookup, All, ok, arith}
use droid_os.Prelude.Int.{ℤ, pos, pos_part, neg_part, sub_ℕ, ltb_ℤ}
use droid_os.Body.Manifest.{GaitPolicySpec}
use droid_os.Body.Loader.{LoadedBody}
use droid_os.Gait.Policy.Types.{Floats, GaitPolicy, Descriptor, json_file}
use droid_os.Gait.Policy.Inference.{infer, max_action, get_or}
use droid_os.Gait.Policy.Loading.{
  load_cpg, load_for_body, load_declared, read_policy, validated, is_wrong_checksum,
}
use droid_os.Gait.Policy.Envelope.{Within, infer-Within}
use droid_os.Gait.Policy.Cleared.{IsApproved, load_for_body-IsCleared}

ltb-leb_ℤ : (x y : ℤ) → ltb_ℤ x y ≡ true → not (ltb_ℤ y x) ≡ true
ltb-leb_ℤ x y h = ground arith

leb_ℤ_refl : (x : ℤ) → not (ltb_ℤ x x) ≡ true
leb_ℤ_refl x = ground arith

-- whole numbers, with operations that keep the tests small
abbrev whole : Floats
whole = record {
  F = ℤ;
  lt = ltb_ℤ;
  neg = λ x. sub_ℕ (neg_part x) (pos_part x);
  abs = λ x. pos (pos_part x + neg_part x);
  sin = λ x. pos 1;
  cos = λ x. pos 0;
  add = λ x y. sub_ℕ (pos_part x + pos_part y) (neg_part x + neg_part y);
  sub = λ x y. sub_ℕ (pos_part x + neg_part y) (neg_part x + pos_part y);
  mul = λ x y. x;
  div = λ x y. x;
  mod_of = λ x y. x;
  pi = pos 3;
  literal = λ text. pos 2;
  le = λ x y. not (ltb_ℤ y x);
  lt_le = ltb-leb_ℤ;
  le_left = λ x y h. leb_ℤ_refl x;
  le_right = λ x y h. leb_ℤ_refl y;
}

abbrev descriptor : Descriptor ℤ
descriptor = record {
  body_id = some "mk1";
  supported_body_revision = none;
  control_rate_hz = some (pos 50);
  observation = "cmd_vx" ∷ [];
  action = "left_knee" ∷ [];
  safety_envelope = ("max_action", pos 1) ∷ [];
  gait = [];
}

abbrev spec : GaitPolicySpec
spec = record {
  file = "walk.json";
  checksum = "sha256:1";
  format = "cpg";
  supported_body_revision = "";
  approved_for_physical = true;
}

abbrev policy : GaitPolicy ℤ
policy = load_cpg whole descriptor spec "sha256:1"

abbrev body : LoadedBody
body = record {
  manifest = record {
    body_id = "mk1";
    name = "Biped";
    model_family = "";
    revision = "a";
    interface_revision = "";
    locomotion_type = "biped";
    hardware_profile = "";
    required_sensors = [];
    required_actuators = "left_knee" ∷ [];
    gait_policy = some spec;
    signature = none;
  };
  capabilities = record { raw = [] };
  sensor_ids = [];
  backend_kind = "physical";
  issues = [];
}

limit-positive : whole.le (whole.neg (max_action whole policy)) (max_action whole policy) ≡ true
unfolding max_action get_or lookup load_cpg
limit-positive = refl

infer-Within_example :
    All
      (λ target. Within whole (max_action whole policy) target.1)
      (infer whole policy (("cmd_vx", pos 4) ∷ []) (pos 1)).1
infer-Within_example = infer-Within whole policy (("cmd_vx", pos 4) ∷ []) (pos 1) limit-positive

loaded :
    load_for_body whole (json_file "sha256:1" (some descriptor)) (pos 50) body []
    ≡ ok (some policy, [])
unfolding load_for_body load_declared read_policy validated is_wrong_checksum load_cpg
loaded = refl

load_for_body-IsCleared_example :
    (s : GaitPolicySpec) × (some spec ≡ some s) × IsApproved whole s body [] "sha256:1" policy
load_for_body-IsCleared_example =
    load_for_body-IsCleared whole (json_file "sha256:1" (some descriptor)) (pos 50) body [] policy
      loaded
