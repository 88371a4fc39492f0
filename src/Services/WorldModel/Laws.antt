-- ===== src/Services/WorldModel/Laws.antt =====
-- Looking up after a change, and reading back after a restart.
use droid_os.Prelude.{
  ℕ, String, ◌≡◌, refl, ap, ◌∙◌, true, ◌||◌, none, some, arith, any-append, lookup, str_eq, join,
  is_some, if◌then◌else◌, StrMethods, WordsRejoin, lookup-insert, lookup-without, Bool-cases, inl,
  inr, eq_iff,
}
use droid_os.Services.WorldModel.{
  World, WorldModel, document, norm, load, get_place, add_place, remove_place, is_restricted,
  add_restricted, note_object, set_obstacle, clear_obstacles,
}

norm-norm : (py : StrMethods) → WordsRejoin py → (s : String) → norm py (norm py s) ≡ norm py s
unfolding norm
norm-norm py h s = ap (join " ") (h s)

-- The file holds the whole of the world.
abbrev pub IsSaved : {C : Type 0} → WorldModel C → Type 0
IsSaved w =
    w.file
    ≡ document (some w.world.places) (some w.world.restricted) (some w.world.obstacles)
        (some w.world.last_seen)

-- A change that a process makes to the world.
pub data Change (C : Type 0) : Type 0 where
  adds : String → C → C → String → Change C
  removes restricts : String → Change C
  notes : ℕ → String → C → C → C → Change C
  blocks : ℕ → C → C → Change C
  clears : Change C

module _ {C : Type 0} (py : StrMethods) where
  -- A place that is added is found under every spelling of its name, and the other places stay.
  pub get-add_place :
      (name other : String) (x y : C) (kind : String) (w : WorldModel C)
      → get_place py other (add_place py name x y kind w) ≡ (
          if str_eq (norm py name) (norm py other)
          then some (record { x = x; y = y; kind = kind })
          else get_place py other w)
  unfolding get_place add_place
  get-add_place name other x y kind w =
      lookup-insert (norm py name) (norm py other) _ w.world.places

  -- `remove_place` says whether the name was known; afterwards it is not, and the other places stay.
  pub get-remove_place :
      (name other : String) (w : WorldModel C)
      → ((remove_place py name w).1 ≡ is_some (get_place py name w))
        × (get_place py other (remove_place py name w).0
            ≡ (if str_eq (norm py name) (norm py other) then none else get_place py other w))
  unfolding get_place remove_place
  get-remove_place name other w =
      elim (Bool-cases (is_some (lookup (norm py name) w.world.places))) [
        | inl known ↦
            (rw known, rw known (lookup-without (norm py name) (norm py other) w.world.places))
        | inr unknown ↦ (
          rw unknown,
          rw unknown (
              ground (
                arith,
                eq_iff (norm py name) (norm py other),
                ap (λ k. lookup k w.world.places) refl,
              )),
        )
      ]

  -- Marking a name as restricted restricts every spelling of it, and no other name.
  pub restricted-add_restricted :
      (name other : String) (w : WorldModel C)
      → WordsRejoin py
      → is_restricted py other (add_restricted py name w)
        ≡ (is_restricted py other w || str_eq (norm py other) (norm py name))
  unfolding is_restricted add_restricted
  restricted-add_restricted name other w h =
      any-append _ w.world.restricted _ ∙ rw (norm-norm py h name) (ground arith)

  unfoldable pub apply : Change C → WorldModel C → WorldModel C
  unfolding add_place remove_place add_restricted note_object set_obstacle clear_obstacles
  apply (adds name x y kind) w = add_place py name x y kind w
  apply (removes name) w = (remove_place py name w).0
  apply (restricts name) w = add_restricted py name w
  apply (notes now label x y c) w = note_object now label x y c w
  apply (blocks now x y) w = set_obstacle now x y w
  apply clears w = clear_obstacles w

  -- Each change of a world that can be written, and that was saved before, is saved: a new process
  -- that loads the file, over any world of its own, has the same world.
  pub reload_after_change :
      (c : Change C) (w : WorldModel C) (d : World C)
      → w.writable ≡ true
      → IsSaved w
      → IsSaved (apply c w)
        × ((load (record { world = d; file = (apply c w).file; writable = true })).world
            ≡ (apply c w).world)
  unfolding apply load remove_place
  reload_after_change (adds name x y kind) w d can saved = rw can (refl, refl)
  reload_after_change (removes name) w d can saved =
      elim (Bool-cases (is_some (lookup (norm py name) w.world.places))) [
        | inl known ↦ rw (apply, remove_place, known, can) (refl, refl)
        | inr unknown ↦ rw (apply, remove_place, unknown) (saved, rw saved refl)
      ]
  reload_after_change (restricts name) w d can saved = rw can (refl, refl)
  reload_after_change (notes now label x y c) w d can saved = rw can (refl, refl)
  reload_after_change (blocks now x y) w d can saved = rw can (refl, refl)
  reload_after_change clears w d can saved = rw can (refl, refl)
