-- ===== src/Services/Navigation/Reach.antt =====
-- When a destination is reachable.
use droid_os.Prelude.{
  String, ◌≡◌, ◌↔◌, Option-cases, inl, inr, true, false, some, arith, StrMethods, str_eq,
}
use droid_os.Body.Capabilities.{Capabilities, supports_motion, can}
use droid_os.Services.WorldModel.{Place, WorldModel, get_place, is_restricted}
use droid_os.Services.Navigation.{traversable, resolve, place_route}

module _ {C : Type 0} (py : StrMethods) where
  -- A destination is reachable exactly when the body moves, its name is not restricted, the name is
  -- that of a known place, and the body climbs stairs if the place is stairs.
  pub traversable_when :
      (c : Capabilities) (w : WorldModel C) (name : String)
      → ((traversable py (some c) (some w) name).0 ≡ true) ↔ (
          (supports_motion c ≡ true)
          × (is_restricted py name w ≡ false)
          × ((p : Place C) × (get_place py name w ≡ some p)
              × ((str_eq p.kind "stairs" ≡ true) → can c "stairs" ≡ true)))
  unfolding traversable resolve place_route
  traversable_when c w name = elim (Option-cases (get_place py name w)) [
    | inl e ↦ ((λ h. absurd (ground (arith, h, e))), (λ h. absurd (ground (arith, h.2.1, e))))
    | inr (p, e) ↦ (
      (λ h. (ground (arith, h, e), ground (arith, h, e), (p, e, λ st. ground (arith, h, e, st)))),
      (λ h. ground (arith, h, e)),
    )
  ]
