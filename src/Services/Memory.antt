-- ===== src/Services/Memory.antt =====
-- `src/droidos/services/memory.py`: the entries that the droid remembers, kept in a file. The file is
-- the list that it parses to; `meta` is left out, and the clock's reading is an argument.
pub mod Categories
mod Examples
use droid_os.Prelude.{
  ℕ, String, Bool, true, false, not, ◌||◌, Option, none, some, List, [], ◌∷◌, ◌++◌, keep, contains,
  is_substring, is_nil, length, str_eq, if◌then◌else◌, Result, ok, err,
}

-- `str.lower` and `str.strip`
pub record TextMethods : Type 0 where
  pub lower : String → String
  pub strip : String → String

pub record Entry : Type 0 where
  pub text : String
  pub category : String
  pub stamp : ℕ

-- The file: absent, not to be read or no list, or a list of entries.
pub data MemoryFile : Type 0 where
  missing unreadable : MemoryFile
  listed : List Entry → MemoryFile

pub record Memory : Type 0 where
  pub entries : List Entry
  pub file : MemoryFile
  pub writable : Bool

-- `DroidError`
pub data Refused : Type 0 where
  forbidden : String → Refused

abbrev pub allowed_categories : List String
allowed_categories =
    "fact" ∷ "place" ∷ "preference" ∷ "person" ∷ "task" ∷ "maintenance" ∷ "summary" ∷ []

abbrev pub forbidden_categories : List String
forbidden_categories = "safety" ∷ "limit" ∷ "authorization" ∷ "capability" ∷ []

-- `_save`, on the entries given
abbrev save : List Entry → Memory → Memory
save es m = record m { entries = es; file = if m.writable then listed es else m.file }

-- `_load`, which `_on_configure` calls
unfoldable pub load : Memory → Memory
load m = elim m.file [ missing ↦ m | unreadable ↦ m | listed es ↦ record m { entries = es } ]

unfoldable pub is_allowed : String → Bool
is_allowed category = contains category allowed_categories

unfoldable pub is_forbidden : String → Bool
is_forbidden category = contains category forbidden_categories

-- the category that an entry gets
unfoldable pub or_fact : String → String
or_fact category = if is_allowed category then category else "fact"

module _ (py : TextMethods) where
  unfoldable pub remember : ℕ → (text category : String) → Memory → Result Refused (Memory × Entry)
  remember now text category m =
      let c = py.lower category in
      if is_forbidden c
      then err (forbidden c)
      else (let e : Entry = record { text = py.strip text; category = or_fact c; stamp = now } in
          ok (save (m.entries ++ e ∷ []) m, e))

  abbrev pub matches : String → Entry → Bool
  matches q e = is_substring q (py.lower e.text)

  -- `forget`, and how many entries were removed
  unfoldable pub forget : String → Memory → Memory × ℕ
  forget query m =
      let kept = keep (λ e. not (matches (py.lower (py.strip query)) e)) m.entries in
      let gone = keep (matches (py.lower (py.strip query))) m.entries in
      if is_nil gone then (record m { entries = kept }, 0) else (save kept m, length gone)
