-- ===== src/Body/Loader/Committed.antt =====
-- What `set_active` writes.
use droid_os.Prelude.{String, ◌≡◌, Bool, Option, none, some, Result, ok, err}
use droid_os.Body.Manifest.{BodyError}
use droid_os.Body.Loader.{
  Selection, SelectionFile, Failure, body_error, os_error, BodyManager, LoadedBody, selects,
  selection, load, load_active,
}

-- The outcome of a change of the selection: it is refused, and nothing is written; or the body loads
-- with it, and writing it raises; or the body loads with it, it is written, and it is what the next
-- boot selects and loads.
pub data Outcome (sw : (prefix s : String) → Bool)
    (stored : Selection → SelectionFile × Option String) (m m' : BodyManager)
    : Result Failure Selection → Type 0 where
  refused : (e : BodyError) → m' ≡ m → Outcome sw stored m m' (err (body_error e))
  unwritten :
      (s : Selection) (b : LoadedBody) (e : String)
      → load sw m s.body_id s.backend ≡ ok b
      → (stored s).1 ≡ some e
      → m' ≡ record m { body_select_file = (stored s).0 }
      → Outcome sw stored m m' (err (os_error e))
  written :
      (s : Selection) (b : LoadedBody)
      → load sw m s.body_id s.backend ≡ ok b
      → (stored s).1 ≡ none
      → selection m' ≡ s
      → load_active sw m' ≡ ok b
      → Outcome sw stored m m' (ok s)

module _ (sw : (prefix s : String) → Bool)
    (stored : Selection → SelectionFile × Option String) where
  -- a selection that is written without an exception reads back as it is
  abbrev pub ReadsBack : Selection → Type 0
  ReadsBack s = (stored s).1 ≡ none → (stored s).0 ≡ selects s.body_id (some s.backend)
