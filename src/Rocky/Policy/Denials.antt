-- ===== src/Rocky/Policy/Denials.antt =====
-- What the policy allows, and what it never lets through.
use droid_os.Prelude.{
  String, ◌≡◌, ◌≢◌, ◌^^◌, true, false, not, ◌&&◌, none, some, List, [], ◌∷◌, lookup, contains,
  str_eq, is_substring, arith, Option-cases, inl, inr, All,
}
use text.Mathlib.TextEquality.{eq_iff}
use droid_os.Rocky.Policy.{
  Strip, Action, Registry, Grants, allow, deny, is_privileged, command_string, find_pattern,
  required_capability, disabled, decide_command, decide_kind, gate_capability, gate_pattern, decide,
}

-- Nothing is allowed without asking but a read-only action: one whose risk is `read_only`, and, for a
-- command, one that the registry lists as read-only and does not list as dangerous.
pub allowed_is_read_only :
    (py : Strip) (caps : Grants) (r : Registry) (a : Action)
    → (decide py caps r a).0 ≡ allow
    → (a.risk ≡ "read_only")
      × ((a.kind ≡ "debian.command")
          → (contains (py.strip a.command) r.debian_read_only_commands ≡ true)
            × (contains (py.strip a.command) r.dangerous_commands ≡ false))
unfolding decide gate_pattern gate_capability decide_kind decide_command
allowed_is_read_only py caps r a h =
    ground (arith, h, eq_iff a.risk "read_only", eq_iff a.kind "debian.command")

-- A privileged command, `sudo` or `reboot` say, is denied unless the capability `privileged` is
-- enabled, whatever risk the action states.
pub privileged_denied :
    (py : Strip) (caps : Grants) (r : Registry) (a : Action)
    → a.kind ≡ "debian.command"
    → is_privileged (py.strip a.command) ≡ true
    → lookup "privileged" caps ≢ some true
    → (decide py caps r a).0 ≡ deny
unfolding decide gate_pattern gate_capability required_capability disabled
privileged_denied py caps r a k p h = ground (arith, p, h, k, eq_iff a.kind "debian.command")

-- a text without forbidden patterns
not_found :
    (text : String) (ps : List String)
    → find_pattern text ps ≡ none
    → All (λ p. (not (str_eq p "") && is_substring p text) ≡ false) ps
unfolding find_pattern
not_found text [] h = tt
not_found text (p ∷ ps) h = (ground (arith, h), not_found text ps (ground (arith, h)))

-- No forbidden pattern but the empty one stands in the command or the content of an action that is
-- not denied.
pub passed_has_no_pattern :
    (py : Strip) (caps : Grants) (r : Registry) (a : Action)
    → (decide py caps r a).0 ≢ deny
    → All
        (λ p.
          (not (str_eq p "") && is_substring p (command_string py a ^^ " " ^^ a.content)) ≡ false)
        r.forbidden_patterns
unfolding decide gate_pattern
passed_has_no_pattern py caps r a h =
    elim (Option-cases
      (find_pattern (command_string py a ^^ " " ^^ a.content) r.forbidden_patterns)) [
        | inl e ↦ not_found _ r.forbidden_patterns e
        | inr (p, e) ↦ absurd (ground (arith, h, e))
      ]
