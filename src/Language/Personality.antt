-- ===== src/Language/Personality.antt =====
-- `src/droidos/language/personality.py`. The configured profile and verbosity are arguments.
use droid_os.Prelude.{
  or_text, String, ◌^^◌, Option, none, some, List, [], ◌∷◌, lookup, str_eq, if◌then◌else◌,
}
use droid_os.Language.Offline.{Texts}

pub record Flavor : Type 0 where
  pub ack : String
  pub refuse_prefix : String
  pub greeting : String
  pub tone : String

abbrev dry_literal : Flavor
dry_literal = record { ack = ""; refuse_prefix = ""; greeting = "Ready."; tone = "dry" }

abbrev flavors : List (String × Flavor)
flavors =
    ("dry_literal", dry_literal)
    ∷ (
      "cheerful",
      record {
        ack = "On it!";
        refuse_prefix = "Sorry, ";
        greeting = "Hello! Standing by.";
        tone = "warm";
      },
    )
    ∷ (
      "formal",
      record {
        ack = "Acknowledged.";
        refuse_prefix = "Regretfully, ";
        greeting = "At your service.";
        tone = "formal";
      },
    )
    ∷ ("terse", record { ack = ""; refuse_prefix = ""; greeting = "Ready."; tone = "terse" })
    ∷ []

pub record Personality : Type 0 where
  pub verbosity : String
  pub flavor : Flavor

abbrev or_dry : Option Flavor → Flavor
or_dry none = dry_literal
or_dry (some f) = f

-- `Personality(config)`
unfoldable pub new : (profile verbosity : Option String) → Personality
new profile verbosity = record {
  verbosity = or_text verbosity "concise";
  flavor = or_dry (lookup (or_text profile "dry_literal") flavors);
}

unfoldable pub acknowledge : Texts → Personality → String → String
acknowledge py p text =
    if str_eq p.flavor.ack "" then text else py.strip (p.flavor.ack ^^ (" " ^^ text))

unfoldable pub refuse : Personality → String → String
refuse p reason =
    if str_eq p.flavor.refuse_prefix "" then reason else p.flavor.refuse_prefix ^^ reason

-- `head_of sep s` is `s.split(sep, 1)[0]`
unfoldable pub trim : Texts → (head_of : String → String → String) → Personality → String → String
trim py head_of p text =
    if str_eq p.verbosity "verbose"
    then text
    else if str_eq p.verbosity "terse"
    then (let first = head_of "\n" (py.strip text) in
        py.rstrip "." (head_of ". " first) ^^ (if str_eq first "" then "" else "."))
    else text
