-- ===== src/Services/Memory/Categories.antt =====
-- services/memory.py: the categories of the memories that are kept.
use droid_os.Prelude.{
  ℕ, String, ◌≡◌, refl, Bool, true, not, ◌&&◌, List, [], ◌∷◌, ◌++◌, keep, arith, ok, err, Result,
}
use droid_os.Services.Memory.{
  TextMethods, Entry, Memory, MemoryFile, missing, unreadable, listed, Refused, is_allowed, or_fact,
  load, remember, forget, matches,
}

-- Every entry has an allowed category.
unfoldable pub all_allowed : List Entry → Bool
all_allowed [] = true
all_allowed (e ∷ es) = is_allowed e.category && all_allowed es

-- The same of the file, if it holds entries.
abbrev pub file_allowed : MemoryFile → Bool
file_allowed missing = true
file_allowed unreadable = true
file_allowed (listed es) = all_allowed es

abbrev pub is_clean : Memory → Bool
is_clean m = all_allowed m.entries && file_allowed m.file

pub data Step : Type 0 where
  remembers : ℕ → (text category : String) → Step
  forgets : String → Step
  loads : Step

abbrev or_same : Memory → Result Refused (Memory × Entry) → Memory
or_same m (err e) = m
or_same m (ok (m', e)) = m'

all_allowed-append :
    (es fs : List Entry) → all_allowed (es ++ fs) ≡ (all_allowed es && all_allowed fs)
unfolding all_allowed
all_allowed-append [] fs = refl
all_allowed-append (e ∷ es) fs = ground (arith, all_allowed-append es fs)

all_allowed-keep :
    (f : Entry → Bool) (es : List Entry) → all_allowed es ≡ true → all_allowed (keep f es) ≡ true
unfolding all_allowed
all_allowed-keep f [] h = refl
all_allowed-keep f (e ∷ es) h = ground (arith, h, all_allowed-keep f es)

fact_allowed : is_allowed "fact" ≡ true
unfolding is_allowed
fact_allowed = refl

or_fact_lem : (c : String) → is_allowed (or_fact c) ≡ true
unfolding or_fact
or_fact_lem c = ground (arith, fact_allowed)

module _ (py : TextMethods) where
  unfoldable pub apply : Step → Memory → Memory
  apply (remembers now text category) m = or_same m (remember py now text category m)
  apply (forgets query) m = (forget py query m).0
  apply loads m = load m

  unfoldable pub run : List Step → Memory → Memory
  unfolding apply
  run [] m = m
  run (s ∷ ss) m = run ss (apply s m)

  step_clean : (s : Step) (m : Memory) → is_clean m ≡ true → is_clean (apply s m) ≡ true
  unfolding apply remember forget load all_allowed
  step_clean (remembers now text category) m h = ground (
    arith,
    h,
    or_fact_lem (py.lower category),
    all_allowed-append m.entries
        (record { text = py.strip text; category = or_fact (py.lower category); stamp = now } ∷ []),
  )
  step_clean (forgets query) m h =
      ground
        (arith, h, all_allowed-keep (λ e. not (matches py (py.lower (py.strip query)) e)) m.entries)
  step_clean loads m h = ground (arith, h)

  -- Whatever is remembered, forgotten and read back, in any order, from a memory and a file that hold
  -- allowed categories only, the entries and the file hold allowed categories only.
  pub run_clean : (ss : List Step) (m : Memory) → is_clean m ≡ true → is_clean (run ss m) ≡ true
  unfolding run
  run_clean [] m h = h
  run_clean (s ∷ ss) m h = run_clean ss (apply s m) (step_clean s m h)
