-- ===== src/Executive/Handlers/Records.antt =====
-- The handlers that write to the memory and the world model.
use droid_os.Prelude.{
  or_text, String, ◌^^◌, Bool, false, Option, none, some, ok, err, if◌then◌else◌,
}
use droid_os.Services.WorldModel.{WorldModel, add_place, remove_place}
use droid_os.Services.Memory
use droid_os.Services.Memory.{Memory, Refused, remember}
use droid_os.System.{has_backend}
use droid_os.Executive.Tasks.{Task, nothing, remembered, stored_place, forgot, plain}
use droid_os.Executive.Droid.{Droid, World}
use droid_os.Executive.Handlers.{Reply, success, failure, raised, argument, given}

module _ {C P : Type 0} where
  -- `rt.memory.remember(text, category)`, and what follows it
  abbrev remembering :
      World C P → String → String → Droid C → Option Memory → Reply C → Droid C × Reply C
  remembering w text category d none r = (d, raised "AttributeError")
  remembering w text category d (some m) r = elim (remember w.texts w.times.now text category m) [
    | ok (m', e) ↦ (record d { memory = some m' }, r)
    | err e ↦ (d, raised "DroidError")
  ]

  abbrev remember_text : World C P → Droid C → Option String → Droid C × Reply C
  remember_text w d none = (d, failure "memory.remember" nothing (plain "nothing to remember"))
  remember_text w d (some text) =
      remembering w text "fact" d d.memory
        (success "memory.remember" (remembered (w.texts.strip text)))

  unfoldable pub h_remember : World C P → Task → Droid C → Droid C × Reply C
  h_remember w t d = remember_text w d (given (argument "text" t))

  -- `float(a.get(key, default))`
  abbrev coordinate : World C P → Option String → C → Option C
  coordinate w none d = some d
  coordinate w (some text) d = w.number text

  abbrev place_at : World C P → Task → String → Droid C → Option C → Option C → Droid C × Reply C
  place_at w t name d (some x) (some y) = elim d.world [
    | none ↦ (d, raised "AttributeError")
    | some m ↦
        (let m' = add_place w.py name x y (or_text (argument "kind" t) "room") m in
          let note =
            name ^^ " is a place at (" ^^ w.show_number x ^^ ", " ^^ w.show_number y ^^ ")" in
          remembering w note "place" (record d { world = some m' }) d.memory
            (success "memory.store_place" (stored_place name x y)))
  ]
  place_at w t name d none y = (d, raised "ValueError")
  place_at w t name d (some x) none = (d, raised "ValueError")

  abbrev store_named : World C P → Task → Droid C → Option String → Droid C × Reply C
  store_named w t d none = (d, failure "memory.store_place" nothing (plain "no place name given"))
  store_named w t d (some name) =
      if has_backend d.sup.rt
      then (place_at w t name d (coordinate w (argument "x" t) w.pose.0)
          (coordinate w (argument "y" t) w.pose.1))
      else (d, raised "AttributeError")

  unfoldable pub h_store_place : World C P → Task → Droid C → Droid C × Reply C
  h_store_place w t d = store_named w t d (given (argument "name" t))

  abbrev forget_place : World C P → String → Option (WorldModel C) → Option (WorldModel C) × Bool
  forget_place w query none = (none, false)
  forget_place w query (some m) = let (m', gone) = remove_place w.py query m in (some m', gone)

  abbrev forget_in : World C P → String → Droid C → Option Memory → Droid C × Reply C
  forget_in w query d none = (d, raised "AttributeError")
  forget_in w query d (some m) =
      let (m', removed) = Memory.forget w.texts query m in
      let (world, also) = forget_place w query d.world in
      (record d { memory = some m'; world = world }, success "memory.forget" (forgot removed also))

  unfoldable pub h_forget : World C P → Task → Droid C → Droid C × Reply C
  h_forget w t d = forget_in w (or_text (argument "query" t) "") d d.memory
