-- ===== src/Rocky/Executor/Effects.antt =====
-- What running an action does to the host.
use droid_os.Prelude.{
  String, ◌^^◌, ◌≡◌, refl, ap, ◌∙◌, true, false, Option, none, some, arith, lookup, lookup-insert,
  lookup-without, or_text, str_eq, eq_iff, Result, ok, err, if◌then◌else◌,
}
use droid_os.Rocky.Policy.{
  Action, Strip, Grants, Registry, allow, decide, gate_pattern, gate_capability, decide_kind,
  find_pattern, required_capability, disabled, command_string,
}
use droid_os.Rocky.Executor.{
  Payload, Host, Os, Outcome, run, file_read, file_write, file_delete, success, reported,
}

-- what a write leaves in a file
abbrev pub written : Payload → Option String → String → String
written p old content =
    if str_eq (or_text p.mode "") "append" then or_text old "" ^^ content else content

-- What is written to a file, after its old content when appending, is what is read from it next, as
-- text mode reads it, where the file can be written and read.
pub read-write :
    (os : Os) (a : Action) (p : Payload) (path : String) (h : Host)
    → str_eq path "" ≡ false
    → os.write_error path ≡ none
    → os.read_error path ≡ none
    → (file_read os path (file_write os a p path h).0).1
      ≡ ok (success "file.read" (os.newlines (written p (lookup path h.files) a.content)))
unfolding file_read file_write
read-write os a p path h n w r =
    let stored = lookup-insert path path (written p (lookup path h.files) a.content) h.files in
    ground (arith, n, w, r, eq_iff path path, stored)

delete-removes :
    (os : Os) (path content : String) (h : Host)
    → str_eq path "" ≡ false
    → os.remove_error path ≡ none
    → lookup path h.files ≡ some content
    → lookup path (file_delete os path h).0.files ≡ none
unfolding file_delete
delete-removes os path content h n e c =
    ground (arith, n, e, c, eq_iff path path, lookup-without path path h.files)

-- a deletion that is labelled as reading
abbrev pub labelled : Action → Action
labelled a = record a { kind = "file.delete"; risk = "read_only" }

labelled-allow :
    (py : Strip) (caps : Grants) (r : Registry) (a : Action)
    → find_pattern (command_string py a ^^ " " ^^ a.content) r.forbidden_patterns ≡ none
    → lookup "file_delete" caps ≡ some true
    → (decide py caps r (labelled a)).0 ≡ allow
unfolding decide gate_pattern gate_capability decide_kind required_capability disabled
    command_string lookup
labelled-allow py caps r a f g = ground (arith, f, g)

reported-host : (kind : String) (x : Host × Result String Outcome) → (reported kind x).0 ≡ x.0
reported-host kind (h, ok r) = refl
reported-host kind (h, err e) = refl

-- The policy allows a deletion without asking, and running it deletes the file, where the file is
-- there and can be removed: it is enough that the action is labelled `read_only`, that the capability
-- is granted and that no forbidden pattern stands in it.
pub labelled_delete_is_allowed :
    (py : Strip) (caps : Grants) (r : Registry) (os : Os) (a : Action) (p : Payload) (h : Host)
    (path content : String)
    → find_pattern (command_string py a ^^ " " ^^ a.content) r.forbidden_patterns ≡ none
    → lookup "file_delete" caps ≡ some true
    → str_eq path "" ≡ false
    → os.remove_error path ≡ none
    → lookup path h.files ≡ some content
    → ((decide py caps r (labelled a)).0 ≡ allow)
      × (lookup path (run os (labelled a) (record p { path = some path }) h).0.files ≡ none)
unfolding run
labelled_delete_is_allowed py caps r os a p h path content f g n e c = (
  labelled-allow py caps r a f g,
  ap (λ (x : Host). lookup path x.files) (reported-host "file.delete" (file_delete os path h))
      ∙ delete-removes os path content h n e c,
)
