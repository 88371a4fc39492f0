-- ===== src/Rocky/Policy.antt =====
-- `rocky/policy.py`: whether an action is allowed, needs the user's consent or is denied. An action is
-- the record of the keys that the policy reads, an empty text or list for a missing one; the texts of
-- the reasons are values of a data type. The reading of the two YAML files is not modelled.
pub mod Denials
mod Examples
use droid_os.Prelude.{
  String, ◌^^◌, Bool, true, false, not, ◌&&◌, ◌||◌, Option, none, some, List, [], ◌∷◌, lookup,
  contains, join, str_eq, is_substring, if◌then◌else◌,
}

-- `str.strip`
pub record Strip : Type 0 where
  pub strip : String → String

pub record Action : Type 0 where
  pub kind : String
  pub risk : String
  pub command : String
  pub args : List String
  pub content : String

pub record Registry : Type 0 where
  pub forbidden_patterns : List String
  pub debian_read_only_commands : List String
  pub dangerous_commands : List String

-- capabilities by name, with `enabled`
abbrev pub Grants : Type 0
Grants = List (String × Bool)

pub data Decision : Type 0 where
  allow ask_user deny : Decision

pub data Reason : Type 0 where
  forbidden_risk no_command read_only_action : Reason
  forbidden_pattern capability_disabled dangerous allowlisted not_allowlisted risk_confirmation :
      String → Reason

-- `_KIND_CAPABILITY`
abbrev kind_capability : List (String × String)
kind_capability =
    ("file.read", "file_read")
    ∷ ("file.write", "file_write")
    ∷ ("file.delete", "file_delete")
    ∷ ("memory.write", "memory_write")
    ∷ ("memory.search", "memory_read")
    ∷ []

-- `_PRIVILEGED_COMMANDS`
abbrev privileged_commands : List String
privileged_commands =
    "sudo" ∷ "su" ∷ "systemctl" ∷ "service" ∷ "apt" ∷ "apt-get" ∷ "dpkg" ∷ "pip" ∷ "pip3" ∷ "mount"
    ∷ "umount" ∷ "useradd" ∷ "userdel" ∷ "usermod" ∷ "passwd" ∷ "reboot" ∷ "shutdown" ∷ "crontab"
    ∷ []

unfoldable pub is_privileged : String → Bool
is_privileged base = contains base privileged_commands

unfoldable pub command_string : Strip → Action → String
command_string py a = py.strip (join " " (a.command ∷ a.args))

-- the first pattern that is not empty and stands in the text
unfoldable pub find_pattern : String → List String → Option String
find_pattern text [] = none
find_pattern text (p ∷ ps) =
    if not (str_eq p "") && is_substring p text then some p else find_pattern text ps

unfoldable pub required_capability : Strip → Action → Registry → Option String
unfolding is_privileged
required_capability py a r =
    let base = py.strip a.command in
    if str_eq a.kind "debian.command"
    then (if is_privileged base || str_eq a.risk "privileged"
        then some "privileged"
        else if str_eq a.risk "network"
        then some "network"
        else if str_eq a.risk "read_only" && contains base r.debian_read_only_commands
        then some "shell_read"
        else some "shell_write")
    else if str_eq a.risk "network"
    then some "network"
    else lookup a.kind kind_capability

abbrev is_enabled : Option Bool → Bool
is_enabled none = false
is_enabled (some b) = b

-- the capability that is needed and disabled
unfoldable pub disabled : Grants → Option String → Option String
disabled caps none = none
disabled caps (some name) = if is_enabled (lookup name caps) then none else some name

-- the rules for commands
unfoldable pub decide_command : Registry → Action → String → Decision × Reason
decide_command r a base =
    if str_eq base ""
    then (deny, no_command)
    else if contains base r.dangerous_commands
    then (ask_user, dangerous base)
    else if str_eq a.risk "read_only" && contains base r.debian_read_only_commands
    then (allow, allowlisted base)
    else (ask_user, not_allowlisted base)

-- what is left when nothing forbids the action
unfoldable pub decide_kind : Strip → Registry → Action → Decision × Reason
unfolding decide_command
decide_kind py r a =
    if str_eq a.kind "debian.command"
    then decide_command r a (py.strip a.command)
    else if str_eq a.risk "read_only"
    then (allow, read_only_action)
    else (ask_user, risk_confirmation (if str_eq a.risk "" then "unknown" else a.risk))

unfoldable pub gate_capability : Strip → Registry → Action → Option String → Decision × Reason
unfolding decide_kind
gate_capability py r a (some name) = (deny, capability_disabled name)
gate_capability py r a none = decide_kind py r a

unfoldable pub gate_pattern : Strip → Grants → Registry → Action → Option String → Decision × Reason
unfolding gate_capability
gate_pattern py caps r a (some p) = (deny, forbidden_pattern p)
gate_pattern py caps r a none = gate_capability py r a (disabled caps (required_capability py a r))

unfoldable pub decide : Strip → Grants → Registry → Action → Decision × Reason
unfolding gate_pattern
decide py caps r a =
    if str_eq a.risk "forbidden"
    then (deny, forbidden_risk)
    else gate_pattern py caps r a
        (find_pattern (command_string py a ^^ " " ^^ a.content) r.forbidden_patterns)
