-- ===== src/Rocky/Executor.antt =====
-- `rocky/executor.py`: running an action that the caller has cleared. The host is the files, the items
-- of the memory and what was printed; the operating system is the argument `os`. Durations are left
-- out.
pub mod Effects
mod Examples
use droid_os.Prelude.{
  ◌==◌, ℕ, String, ◌^^◌, Bool, true, false, not, Option, none, some, List, [], ◌∷◌, ◌++◌, contains,
  lookup, insert, without, or_text, str_eq, Result, ok, err, if◌then◌else◌,
}
use droid_os.Rocky.Policy.{Action}

-- The keys of the payload that the policy does not read.
pub record Payload : Type 0 where
  pub cwd : Option String
  pub path : Option String
  pub mode : Option String
  pub kind : Option String
  pub query : Option String
  pub message : Option String

pub record Host : Type 0 where
  pub files : List (String × String)
  pub memories : List (String × String × String)  -- id, kind and content
  pub printed : List String

pub data ExitCode : Type 0 where
  exited killed_by : ℕ → ExitCode

-- `subprocess.run` ends, or raises `FileNotFoundError`, `TimeoutExpired` or something else.
pub data Process : Type 0 where
  ended : ExitCode → (stdout stderr : String) → Process
  not_found timed_out : Process
  broken : String → Process

-- What the operating system answers: a process changes the host, and a file may refuse to be opened.
pub record Os : Type 0 where
  pub run : (command : String) → List String → (cwd : Option String) → Host → Host × Process
  pub read_error : String → Option String
  pub write_error : String → Option String
  pub remove_error : String → Option String
  pub newlines : String → String  -- what reading in text mode makes of a file's content
  pub new_id : Host → String
  pub search : String → Host → String  -- the rows that the query finds, as JSON
  pub written_note : String → String → String  -- `f"wrote {len(content)} bytes to {path}"`

pub record Outcome : Type 0 where
  pub ok : Bool
  pub kind : String
  pub exit_code : ExitCode
  pub stdout : String
  pub stderr : String

-- `_ok`
abbrev pub success : String → String → Outcome
success kind stdout = record {
  ok = true;
  kind = kind;
  exit_code = exited 0;
  stdout = stdout;
  stderr = "";
}

-- `_fail`
abbrev pub failure : String → String → Outcome
failure kind why = record {
  ok = false;
  kind = kind;
  exit_code = exited 1;
  stdout = "";
  stderr = why;
}

abbrev is_zero : ExitCode → Bool
is_zero (exited n) = n == 0
is_zero (killed_by n) = false

-- `VALID_KINDS` of `memory.py`
abbrev valid_kinds : List String
valid_kinds =
    "fact" ∷ "preference" ∷ "project_note" ∷ "warning" ∷ "system_state" ∷ "command_history"
    ∷ "file_reference" ∷ "conversation_summary" ∷ "credential_reference" ∷ []

-- a handler's result, or its exception
abbrev pub Answer : Type 0
Answer = Host × Result String Outcome

abbrev process_outcome : String → Host × Process → Answer
process_outcome command (h, ended code out error) = (
  h,
  ok (record {
    ok = is_zero code;
    kind = "debian.command";
    exit_code = code;
    stdout = out;
    stderr = error;
  }),
)
process_outcome command (h, not_found) =
    (h, ok (failure "debian.command" ("command not found: " ^^ command)))
process_outcome command (h, timed_out) = (h, ok (failure "debian.command" "command timed out"))
process_outcome command (h, broken e) = (h, err e)

unfoldable pub run_command : Os → Action → Payload → Host → Answer
run_command os a p h =
    if str_eq a.command ""
    then (h, ok (failure "debian.command" "missing/invalid 'command'"))
    else process_outcome a.command (os.run a.command a.args p.cwd h)

-- the content of a file, if it opens
abbrev read_content : Os → Host → Option String → Option String → Answer
read_content os h (some e) content = (h, err e)
read_content os h none none = (h, err "FileNotFoundError")
read_content os h none (some content) = (h, ok (success "file.read" (os.newlines content)))

unfoldable pub file_read : Os → String → Host → Answer
file_read os path h =
    if str_eq path ""
    then (h, ok (failure "file.read" "missing 'path'"))
    else read_content os h (os.read_error path) (lookup path h.files)

abbrev write_content : Os → Action → Payload → String → Host → Option String → Answer
write_content os a p path h (some e) = (h, err e)
write_content os a p path h none =
    let old = or_text (lookup path h.files) "" in
    let new = if str_eq (or_text p.mode "") "append" then old ^^ a.content else a.content in
    (
      record h { files = insert path new h.files },
      ok (success "file.write" (os.written_note a.content path)),
    )

unfoldable pub file_write : Os → Action → Payload → String → Host → Answer
file_write os a p path h =
    if str_eq path ""
    then (h, ok (failure "file.write" "missing 'path'"))
    else write_content os a p path h (os.write_error path)

abbrev remove_file : String → Host → Option String → Option String → Answer
remove_file path h (some e) content = (h, err e)
remove_file path h none none = (h, err "FileNotFoundError")
remove_file path h none (some content) =
    (record h { files = without path h.files }, ok (success "file.delete" ("deleted " ^^ path)))

unfoldable pub file_delete : Os → String → Host → Answer
file_delete os path h =
    if str_eq path ""
    then (h, ok (failure "file.delete" "missing 'path'"))
    else remove_file path h (os.remove_error path) (lookup path h.files)

-- with `memory.add`
unfoldable pub memory_write : Os → Action → Payload → Host → Answer
memory_write os a p h =
    let kind = or_text p.kind "fact" in
    if not (contains kind valid_kinds) then (h, err "ValueError") else (
      record h { memories = h.memories ++ (os.new_id h, kind, a.content) ∷ [] },
      ok (success "memory.write" (os.new_id h)),
    )

unfoldable pub memory_search : Os → Payload → Host → Answer
memory_search os p h = (h, ok (success "memory.search" (os.search (or_text p.query "") h)))

unfoldable pub notify : Action → Payload → Host → Answer
notify a p h =
    let message = or_text p.message "" in
    (record h { printed = h.printed ++ message ∷ [] }, ok (success a.kind message))

-- the exception of a handler is reported
abbrev pub reported : String → Answer → Host × Outcome
reported kind (h, ok r) = (h, r)
reported kind (h, err e) = (h, failure kind e)

-- `run`, over the table of handlers
unfoldable pub run : Os → Action → Payload → Host → Host × Outcome
unfolding run_command file_read file_write file_delete memory_write memory_search notify
run os a p h =
    let path = or_text p.path "" in
    if str_eq a.kind "debian.command"
    then reported a.kind (run_command os a p h)
    else if str_eq a.kind "file.read"
    then reported a.kind (file_read os path h)
    else if str_eq a.kind "file.write"
    then reported a.kind (file_write os a p path h)
    else if str_eq a.kind "file.delete"
    then reported a.kind (file_delete os path h)
    else if str_eq a.kind "memory.write"
    then reported a.kind (memory_write os a p h)
    else if str_eq a.kind "memory.search"
    then reported a.kind (memory_search os p h)
    else if str_eq a.kind "notify"
    then reported a.kind (notify a p h)
    else if str_eq a.kind "speak"
    then reported a.kind (notify a p h)
    else (h, failure a.kind ("no executor for kind '" ^^ (a.kind ^^ "'")))
