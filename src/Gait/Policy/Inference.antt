-- ===== src/Gait/Policy/Inference.antt =====
-- gait/policy.py: one control step of a policy.
use droid_os.Prelude.{
  String, List, [], ◌∷◌, ◌++◌, ◌^^◌, none, some, lookup, insert, map, if◌then◌else◌,
}
use droid_os.Gait.Policy.Types.{Floats, Runtime, onnx, cpg, GaitPolicy}

module _ (fl : Floats) where
  open fl use {F, lt, neg, abs, sin, cos, add, sub, mul, div, mod_of, pi, literal}

  -- `min(a, b)` and `max(a, b)`: the first unless the second is less or greater
  unfoldable pub min_of : F → F → F
  min_of a b = if lt b a then b else a

  unfoldable pub max_of : F → F → F
  max_of a b = if lt a b then b else a

  -- `float(values.get(name, default))`
  unfoldable pub get_or : String → F → List (String × F) → F
  get_or name default values = elim (lookup name values) [ none ↦ default | some v ↦ v ]

  unfoldable pub clamp : F → F → F
  clamp lim v = max_of (neg lim) (min_of lim v)

  unfoldable pub clamp_each : F → List (String × F) → List (String × F)
  clamp_each lim [] = []
  clamp_each lim (entry ∷ action) = (entry.0, clamp lim entry.1) ∷ clamp_each lim action

  unfoldable pub max_action : GaitPolicy F → F
  max_action p = get_or "max_action" (literal "1.5") p.safety_envelope

  unfoldable pub apply_envelope : GaitPolicy F → List (String × F) → List (String × F)
  apply_envelope p action = clamp_each (max_action p) action

  -- the targets of one leg, from the amplitudes of hip, knee and ankle
  abbrev leg_targets : String → F → F → F → F → List (String × F)
  leg_targets side hip knee ankle p =
      let s = sin p in
      let bend = mul knee (sub (literal "0.5") (mul (literal "0.5") (cos p))) in
      (side ^^ "_hip_pitch", mul hip s)
      ∷ (side ^^ "_knee", max_of (literal "0.0") bend)
      ∷ (side ^^ "_ankle", mul ankle (neg s))
      ∷ []

  -- `{j: targets.get(j, 0.0) for j in action}`, with the entries made so far
  unfoldable pub declared : List (String × F) → List String → List (String × F) → List (String × F)
  declared targets [] made = made
  declared targets (j ∷ action) made =
      declared targets action (insert j (get_or j (literal "0.0") targets) made)

  unfoldable pub infer_cpg : GaitPolicy F → List (String × F) → List (String × F)
  infer_cpg p obs =
      let vx = get_or "cmd_vx" (literal "0.0") obs in
      let gain =
        if lt (abs vx) (literal "1e-3")
        then literal "0.0"
        else min_of (literal "1.0") (div (abs vx) (literal "0.35")) in
      let hip = mul (get_or "hip_amp" (literal "0.35") p.params) gain in
      let knee = mul (get_or "knee_amp" (literal "0.6") p.params) gain in
      let ankle = mul (get_or "ankle_amp" (literal "0.2") p.params) gain in
      let left = leg_targets "left" hip knee ankle (add p.phase (literal "0.0")) in
      let right = leg_targets "right" hip knee ankle (add p.phase pi) in
      declared (left ++ right) p.action []

  -- `{j: float(v) for j, v in zip(action, out)}`, with the entries made so far
  unfoldable pub zipped : List String → List F → List (String × F) → List (String × F)
  zipped [] out made = made
  zipped (j ∷ action) [] made = made
  zipped (j ∷ action) (v ∷ out) made = zipped action out (insert j v made)

  unfoldable pub infer_onnx :
      (List F → List F) → GaitPolicy F → List (String × F) → List (String × F)
  infer_onnx run p obs =
      let vec = map (λ name. get_or name (literal "0.0") obs) p.observation in
      zipped p.action (run vec) []

  unfoldable pub raw_action : Runtime → GaitPolicy F → List (String × F) → List (String × F)
  raw_action cpg p obs = infer_cpg p obs
  raw_action onnx p obs = elim p.session [
    | none ↦ infer_cpg p obs
    | some run ↦ infer_onnx run p obs
  ]

  -- The policy with its phase moved on, and the joint targets.
  unfoldable pub infer : GaitPolicy F → List (String × F) → F → GaitPolicy F × List (String × F)
  infer p obs dt =
      let whole_turn = mul (literal "2") pi in
      let freq = get_or "step_freq_hz" (literal "1.4") p.params in
      let phase = mod_of (add p.phase (mul (mul whole_turn freq) dt)) whole_turn in
      let moved = record p { phase = phase } in
      (moved, apply_envelope moved (raw_action moved.runtime moved obs))
