-- ===== src/Language/Broker/Gates.antt =====
-- What an approval implies, and when the broker gives one.
use droid_os.Prelude.{
  ◌≡◌, refl, Bool, true, false, not, ◌&&◌, ◌||◌, Option, none, some, arith, StrMethods,
  if◌then◌else◌,
}
use droid_os.Services.Supervisor.Readiness.{stopped, unhealthy}
use droid_os.Services.Supervisor.Readiness.Clear.{assessed_motion, clear}
use droid_os.Language.Auth.{User, authorize}
use droid_os.Language.Tools.{ToolSpec, get}
use droid_os.Language.Broker.{
  Intent, Outcome, approved, confirmation_required, Site, capability_ok, destination_ok,
  motion_permitted, needs_confirmation, validate, validate_tool,
}

abbrev pub is_approved : Outcome → Bool
is_approved approved = true
is_approved _ = false

module _ {C : Type 0} (py : StrMethods) where
  -- the gates on a motion, as one test
  abbrev pub may_go : Site C → Intent → ToolSpec → Bool
  may_go s i t =
      if t.requires_motion then (destination_ok py s i t).0 && (motion_permitted py s).1.0 else true

  -- the gates on a tool, as one test
  abbrev pub passes : Site C → Intent → User → Bool → ToolSpec → Bool
  passes s i u confirmed t =
      t.always_available
      || ((authorize u t.min_role_rank).0
          && ((capability_ok s.rt.body t.required_capability).0
              && (may_go s i t
                  && (not (needs_confirmation py s t i t.confirmation).0 || confirmed))))

  abbrev pub passes_named : Site C → Intent → User → Bool → Option ToolSpec → Bool
  passes_named s i u confirmed none = false
  passes_named s i u confirmed (some t) = passes s i u confirmed t

  tool_approved :
      (s : Site C) (i : Intent) (u : User) (confirmed : Bool) (o : Option ToolSpec)
      → is_approved (validate_tool py s i u confirmed o).1.outcome ≡ passes_named s i u confirmed o
  unfolding validate_tool
  tool_approved s i u confirmed none = refl
  tool_approved s i u confirmed (some t) = ground (arith)

  -- An intent is approved exactly when it names a registered tool that is always available or passes
  -- every gate: the user's role, the body's capability, for a motion the destination and the
  -- permission to move, and a confirmation where one is needed.
  pub approved_when :
      (s : Site C) (i : Intent) (u : User) (confirmed : Bool)
      → is_approved (validate py s i u confirmed).1.outcome
        ≡ passes_named s i u confirmed (get s.registry i.intent)
  unfolding validate
  approved_when s i u confirmed = tool_approved s i u confirmed (get s.registry i.intent)

  tool_confirmed :
      (s : Site C) (i : Intent) (u : User) (o : Option ToolSpec)
      → (validate_tool py s i u false o).1.outcome ≡ confirmation_required
      → (validate_tool py s i u true o).1.outcome ≡ approved
  unfolding validate_tool
  tool_confirmed s i u none h = absurd (ground (arith))
  tool_confirmed s i u (some t) h = ground (arith)

  -- An intent that only waits for a confirmation is approved once it is confirmed.
  pub confirmed-approved :
      (s : Site C) (i : Intent) (u : User)
      → (validate py s i u false).1.outcome ≡ confirmation_required
      → (validate py s i u true).1.outcome ≡ approved
  unfolding validate
  confirmed-approved s i u h = tool_confirmed s i u (get s.registry i.intent) h

  -- A motion that is approved under a supervisor, by a tool that is not always available, comes with
  -- a readiness assessment that found the emergency stop released, the safety controller healthy, and
  -- every motion-critical service, the body and its hardware fit.
  pub approved_motion_is_ready :
      (s : Site C) (i : Intent) (u : User) (confirmed : Bool) (t : ToolSpec)
      → get s.registry i.intent ≡ some t
      → t.requires_motion ≡ true
      → t.always_available ≡ false
      → s.has_supervisor ≡ true
      → (validate py s i u confirmed).1.outcome ≡ approved
      → let (rt', halted) = stopped s.first s.rt in
        let (rt'', unwell) = unhealthy s.beat s.now rt' in
        (halted ≡ false) × (unwell ≡ false) × (clear rt'' ≡ true)
  unfolding motion_permitted
  approved_motion_is_ready s i u confirmed t e moves busy watched ok =
      let (rt', halted) = stopped s.first s.rt in
      let (rt'', unwell) = unhealthy s.beat s.now rt' in
      ground (
        arith,
        approved_when s i u confirmed,
        assessed_motion s.first s.beat s.now s.rt,
        e,
        moves,
        busy,
        watched,
        ok,
      )
