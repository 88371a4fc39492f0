-- ===== src/Body/Loader/Valid.antt =====
-- What a body without issues has.
use droid_os.Prelude.{
  String, ◌≡◌, refl, Bool, true, false, not, ◌&&◌, ◌||◌, Option, none, some, List, [], ◌∷◌, ◌++◌,
  arith, any, is_nil, is_nil-append, is_nil-collect, contains, str_eq, lookup, if◌then◌else◌,
}
use droid_os.Body.Capabilities.{Capabilities, category}
use droid_os.Body.Manifest.{BodyManifest, GaitPolicySpec}
use droid_os.Body.Loader.{
  Issue, static_validate, issue_if, gait_issues, is_false, is_placeholder, undeclared_sensor,
  biped_cannot_walk, cannot_roll, placeholder_signature,
}

-- the policy names this revision or none, with a checksum, and approved where the backend is physical
abbrev pub is_fit : BodyManifest → String → Option GaitPolicySpec → Bool
is_fit m backend none = false
is_fit m backend (some g) =
    not (str_eq g.checksum "")
    && (str_eq g.supported_body_revision "" || str_eq g.supported_body_revision m.revision)
    && (not (str_eq backend "physical") || g.approved_for_physical)

gait_issues-is_fit :
    (m : BodyManifest) (backend : String) (g : Option GaitPolicySpec)
    → is_nil (gait_issues m backend g) ≡ is_fit m backend g
gait_issues-is_fit m backend none = refl
gait_issues-is_fit m backend (some g) = ground (arith)

is_nil-issue_if : (b : Bool) (i : Issue) → is_nil (issue_if b i) ≡ not b
is_nil-issue_if true i = refl
is_nil-issue_if false i = refl

both :
    (xs ys : List Issue) {p q : Bool} → is_nil xs ≡ p → is_nil ys ≡ q → is_nil (xs ++ ys) ≡ (p && q)
both xs ys h k = ground (arith, h, k, is_nil-append xs ys)

when_biped :
    (b : Bool) (xs : List Issue) {p : Bool}
    → is_nil xs ≡ p
    → is_nil (if b then xs else []) ≡ (not b || p)
when_biped true xs h = h
when_biped false xs h = refl

module _ (sw : (prefix s : String) → Bool) where
  -- what validation asks of a body
  abbrev pub is_valid : BodyManifest → Capabilities → List String → String → Bool
  is_valid m c declared backend =
      let loco = category c "locomotion" in
      not (any (λ s. not (contains s declared)) m.required_sensors)
      && (not (str_eq m.locomotion_type "biped" && is_false (lookup "walk" loco))
          && (not (
                contains m.locomotion_type ("differential" ∷ "omni" ∷ "tracked" ∷ [])
                && is_false (lookup "roll" loco))
              && ((not (str_eq m.locomotion_type "biped") || is_fit m backend m.gait_policy)
                  && not (is_placeholder sw m.signature))))

  -- Validation finds no issue exactly where every required sensor is declared, the capabilities do not
  -- deny what the locomotion needs, a biped has a gait policy that has a checksum, names this revision
  -- or none, and is approved if the backend is physical, and the signature is there and no placeholder.
  pub static_validate-is_valid :
      (m : BodyManifest) (c : Capabilities) (declared : List String) (backend : String)
      → is_nil (static_validate sw m c declared backend) ≡ is_valid m c declared backend
  unfolding static_validate
  static_validate-is_valid m c declared backend =
      let loco = category c "locomotion" in
      both _ _
        (is_nil-collect (λ s. not (contains s declared)) (λ s. undeclared_sensor s)
          m.required_sensors)
        (both _ _
          (is_nil-issue_if (str_eq m.locomotion_type "biped" && is_false (lookup "walk" loco))
            biped_cannot_walk)
          (both _ _
            (is_nil-issue_if
              (contains m.locomotion_type ("differential" ∷ "omni" ∷ "tracked" ∷ [])
                && is_false (lookup "roll" loco))
              cannot_roll)
            (both _ _
              (when_biped (str_eq m.locomotion_type "biped") _
                (gait_issues-is_fit m backend m.gait_policy))
              (is_nil-issue_if (is_placeholder sw m.signature) placeholder_signature))))
