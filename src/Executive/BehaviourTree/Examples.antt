-- ===== src/Executive/BehaviourTree/Examples.antt =====
-- A sequence that counts.
use droid_os.Prelude.{ℕ, suc, ◌≡◌, ◌↔◌}
use droid_os.Executive.BehaviourTree.{Children, leaf, also, action, returned, success, tick_all}
use droid_os.Executive.BehaviourTree.Laws.{Passes, sequence-Passes}

abbrev count_twice : Children ℕ
count_twice =
    also (action "one" (λ n. (suc n, returned success)))
      (also (action "two" (λ n. (suc n, returned success))) leaf)

sequence-Passes_example :
    (((tick_all count_twice 3).0 ≡ 5) × ((tick_all count_twice 3).1 ≡ returned success))
    ↔ Passes count_twice 3 5
sequence-Passes_example = sequence-Passes count_twice 3 5
