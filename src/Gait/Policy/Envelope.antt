-- ===== src/Gait/Policy/Envelope.antt =====
-- gait/policy.py: the joint targets of one control step.
use droid_os.Prelude.{String, true, ◌≡◌, List, [], ◌∷◌, All, arith}
use droid_os.Gait.Policy.Types.{Floats, GaitPolicy}
use droid_os.Gait.Policy.Inference.{
  min_of, max_of, clamp, clamp_each, max_action, apply_envelope, raw_action, infer,
}

module _ (fl : Floats) where
  open fl use {F, lt, le, neg, lt_le, le_left, le_right}

  -- A number from `-lim` to `lim`; nan is not one.
  abbrev pub Within : F → F → Type 0
  Within lim v = (le (neg lim) v ≡ true) × (le v lim ≡ true)

  clamp-Within : (lim v : F) → le (neg lim) lim ≡ true → Within lim (clamp fl lim v)
  unfolding clamp min_of max_of
  clamp-Within lim v h = ground (
    arith,
    h,
    le_left (neg lim) lim h,
    le_right (neg lim) lim h,
    lt_le v lim,
    lt_le (neg lim) v,
    lt_le (neg lim) lim,
  )

  clamp_each-Within :
      (lim : F) (action : List (String × F))
      → le (neg lim) lim ≡ true
      → All (λ target. Within lim target.1) (clamp_each fl lim action)
  unfolding clamp_each
  clamp_each-Within lim [] h = tt
  clamp_each-Within lim (entry ∷ action) h =
      (clamp-Within lim entry.1 h, clamp_each-Within lim action h)

  -- Where the limit of the policy's envelope is neither negative nor nan, every joint target is a
  -- number from the negative to the positive limit, whatever was observed and whatever the network
  -- answers, nan included.
  pub infer-Within :
      (p : GaitPolicy F) (obs : List (String × F)) (dt : F)
      → le (neg (max_action fl p)) (max_action fl p) ≡ true
      → All (λ target. Within (max_action fl p) target.1) (infer fl p obs dt).1
  unfolding infer apply_envelope max_action
  infer-Within p obs dt h = clamp_each-Within _ (raw_action fl p.runtime _ obs) h
