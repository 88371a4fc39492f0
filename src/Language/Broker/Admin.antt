-- ===== src/Language/Broker/Admin.antt =====
-- The administrative tools of the default registry.
use droid_os.Prelude.{
  ◌≡◌, ap, sym, ◌∙◌, refl, Bool, true, false, not, ◌&&◌, ◌||◌, ◌==◌, some, [], ◌∷◌, arith,
  StrMethods, String, lookup, insert,
}
use droid_os.Language.Auth.{User, owner, authorize}
use droid_os.Language.Tools.{
  ToolSpec, Registry, get, Risk, administrative, Confirm, required, registry_of, register,
}
use droid_os.Language.Tools.Defaults.{default_tools}
use droid_os.Language.Broker.{Intent, approved, Site, validate, needs_confirmation}
use droid_os.Language.Broker.Gates.{approved_when}

abbrev pub is_administrative : Risk → Bool
is_administrative administrative = true
is_administrative _ = false

abbrev is_required : Confirm → Bool
is_required required = true
is_required _ = false

-- an administrative tool is for the owner, with a confirmation
abbrev is_guarded : ToolSpec → Bool
is_guarded t =
    not (is_administrative t.risk)
    || (t.min_role_rank == 3 && (is_required t.confirmation && not t.always_available))

all_guarded : Registry → Bool
all_guarded [] = true
all_guarded ((name, t) ∷ r) = is_guarded t && all_guarded r

defaults_guarded : all_guarded (registry_of default_tools []) ≡ true
unfolding all_guarded registry_of register insert default_tools
defaults_guarded = refl

found-is_guarded :
    (name : String) (r : Registry) (t : ToolSpec)
    → all_guarded r ≡ true
    → lookup name r ≡ some t
    → is_guarded t ≡ true
unfolding all_guarded lookup
found-is_guarded name [] t all e = absurd (ground (arith, e))
found-is_guarded name ((k, u) ∷ r) t all e = ground (arith, all, e, found-is_guarded name r t)

owner_only : (u : User) → (authorize u 3).0 ≡ true → u.role ≡ owner
unfolding authorize
owner_only u h = ground (arith, h)

module _ {C : Type 0} (py : StrMethods) where
  guarded-approved :
      (s : Site C) (i : Intent) (u : User) (confirmed : Bool) (t : ToolSpec)
      → get s.registry i.intent ≡ some t
      → is_administrative t.risk ≡ true
      → is_guarded t ≡ true
      → (validate py s i u confirmed).1.outcome ≡ approved
      → ((authorize u t.min_role_rank).0 ≡ true) × (t.min_role_rank ≡ 3) × (confirmed ≡ true)
  unfolding needs_confirmation
  guarded-approved s i u confirmed t e admin g ok =
      ground (arith, approved_when py s i u confirmed, e, admin, g, ok)

  -- With the default registry, an administrative tool is approved for nobody but the owner, and never
  -- without a confirmation.
  pub administrative_needs_owner :
      (s : Site C) (i : Intent) (u : User) (confirmed : Bool) (t : ToolSpec)
      → s.registry ≡ registry_of default_tools []
      → get s.registry i.intent ≡ some t
      → t.risk ≡ administrative
      → (validate py s i u confirmed).1.outcome ≡ approved
      → (u.role ≡ owner) × (confirmed ≡ true)
  unfolding get
  administrative_needs_owner s i u confirmed t r e admin ok =
      let guarded =
        found-is_guarded i.intent s.registry t (ap all_guarded r ∙ defaults_guarded) e in
      let (allowed, three, agreed) =
        guarded-approved s i u confirmed t e (ap is_administrative admin) guarded ok in
      (owner_only u (ap (λ n. (authorize u n).0) (sym three) ∙ allowed), agreed)
