-- ===== src/Language/Broker/Log.antt =====
-- The log of checks that a decision carries.
use droid_os.Prelude.{
  ◌≡◌, refl, Bool, true, false, not, ◌&&◌, Option, none, some, List, [], ◌∷◌, arith, StrMethods,
}
use droid_os.Language.Auth.{User}
use droid_os.Language.Tools.{ToolSpec, get}
use droid_os.Language.Broker.{Intent, rejected, Site, Check, validate, validate_tool}

-- Every check but the last one succeeded, and the last one failed.
unfoldable pub fails_at_last : List Check → Bool
fails_at_last [] = false
fails_at_last (c ∷ []) = not c.ok
fails_at_last (c ∷ (d ∷ cs)) = c.ok && fails_at_last (d ∷ cs)

module _ {C : Type 0} (py : StrMethods) where
  tool_rejected :
      (s : Site C) (i : Intent) (u : User) (confirmed : Bool) (o : Option ToolSpec)
      → (validate_tool py s i u confirmed o).1.outcome ≡ rejected
      → fails_at_last (validate_tool py s i u confirmed o).1.checks ≡ true
  unfolding validate_tool fails_at_last
  tool_rejected s i u confirmed none h = refl
  tool_rejected s i u confirmed (some t) h = ground (arith, h)

  -- A rejection is logged as such: the last check of its log failed, and all the checks before it
  -- succeeded, so that the broker stopped at the first gate that was shut.
  pub rejected-fails_at_last :
      (s : Site C) (i : Intent) (u : User) (confirmed : Bool)
      → (validate py s i u confirmed).1.outcome ≡ rejected
      → fails_at_last (validate py s i u confirmed).1.checks ≡ true
  unfolding validate
  rejected-fails_at_last s i u confirmed h =
      tool_rejected s i u confirmed (get s.registry i.intent) h
