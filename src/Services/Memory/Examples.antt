-- ===== src/Services/Memory/Examples.antt =====
-- An attempt to remember a safety rule, and a fact.
use droid_os.Prelude.{◌≡◌, refl, true, [], ◌∷◌, List}
use droid_os.Services.Memory.{TextMethods, Memory, missing}
use droid_os.Services.Memory.Categories.{
  Step, remembers, loads, is_clean, run, run_clean, all_allowed,
}

abbrev plain : TextMethods
plain = record { lower = λ s. s; strip = λ s. s }

abbrev empty : Memory
empty = record { entries = []; file = missing; writable = true }

abbrev steps : List Step
steps =
    remembers 1 "never stop" "safety" ∷ (remembers 2 "the lab is upstairs" "hint" ∷ (loads ∷ []))

run_clean_example : is_clean (run plain steps empty) ≡ true
unfolding all_allowed
run_clean_example = run_clean plain steps empty refl
