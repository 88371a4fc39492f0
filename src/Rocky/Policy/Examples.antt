-- ===== src/Rocky/Policy/Examples.antt =====
-- Two commands, judged with a small registry.
use droid_os.Prelude.{◌≡◌, ◌≢◌, refl, true, false, some, [], ◌∷◌, lookup, contains, arith}
use droid_os.Rocky.Policy.{
  Strip, Action, Registry, Grants, allow, deny, is_privileged, command_string, find_pattern,
  required_capability, disabled, decide, gate_pattern, gate_capability, decide_kind, decide_command,
}
use droid_os.Rocky.Policy.Denials.{allowed_is_read_only}

abbrev plain : Strip
plain = record { strip = λ s. s }

abbrev registry : Registry
registry = record {
  forbidden_patterns = "rm -rf" ∷ [];
  debian_read_only_commands = "ls" ∷ [];
  dangerous_commands = "rm" ∷ [];
}

abbrev grants : Grants
grants = ("shell_read", true) ∷ ("privileged", false) ∷ []

abbrev listing : Action
listing = record {
  kind = "debian.command";
  risk = "read_only";
  command = "ls";
  args = [];
  content = "";
}

abbrev sudo : Action
sudo = record {
  kind = "debian.command";
  risk = "read_only";
  command = "sudo";
  args = "ls" ∷ [];
  content = "";
}

allowed : (decide plain grants registry listing).0 ≡ allow
unfolding decide command_string find_pattern required_capability disabled lookup gate_pattern
    gate_capability decide_kind decide_command is_privileged
allowed = refl

allowed_is_read_only_example :
    (listing.risk ≡ "read_only")
    × ((listing.kind ≡ "debian.command")
        → (contains "ls" registry.debian_read_only_commands ≡ true)
          × (contains "ls" registry.dangerous_commands ≡ false))
allowed_is_read_only_example = allowed_is_read_only plain grants registry listing allowed

not_granted : lookup "privileged" grants ≢ some true
unfolding lookup
not_granted h = ground (arith, h)

not_denied : (decide plain grants registry listing).0 ≢ deny
not_denied h = ground (arith, h, allowed)
