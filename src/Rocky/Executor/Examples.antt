-- ===== src/Rocky/Executor/Examples.antt =====
-- A host with one file.
use droid_os.Prelude.{◌≡◌, refl, true, none, some, [], ◌∷◌, lookup}
use droid_os.Rocky.Policy.{Strip, Action, Registry, Grants, allow, decide, find_pattern}
use droid_os.Rocky.Executor.{Payload, Host, Os, not_found, run}
use droid_os.Rocky.Executor.Effects.{labelled, labelled_delete_is_allowed}

abbrev plain : Strip
plain = record { strip = λ s. s }

abbrev linux : Os
linux = record {
  run = λ c args cwd h. (h, not_found);
  read_error = λ p. none;
  write_error = λ p. none;
  remove_error = λ p. none;
  newlines = λ s. s;
  new_id = λ h. "mem_1";
  search = λ q h. "[]";
  written_note = λ c p. "wrote";
}

abbrev note : Action
note = record { kind = "file.write"; risk = "write"; command = ""; args = []; content = "more" }

abbrev appending : Payload
appending = record {
  cwd = none;
  path = some "log";
  mode = some "append";
  kind = none;
  query = none;
  message = none;
}

abbrev host : Host
host = record { files = ("log", "some ") ∷ []; memories = []; printed = [] }

abbrev registry : Registry
registry = record {
  forbidden_patterns = [];
  debian_read_only_commands = [];
  dangerous_commands = [];
}

abbrev grants : Grants
grants = ("file_delete", true) ∷ []

labelled_delete_is_allowed_example :
    ((decide plain grants registry (labelled note)).0 ≡ allow)
    × (lookup "log"
          (run linux (labelled note) (record appending { path = some "log" }) host).0.files
        ≡ none)
unfolding find_pattern lookup
labelled_delete_is_allowed_example =
    labelled_delete_is_allowed plain grants registry linux note appending host "log" "some " refl
      refl refl refl refl
