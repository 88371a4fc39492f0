-- ===== src/Services/WorldModel.antt =====
-- `src/droidos/services/world_model.py`: places, restricted areas, obstacles and sightings, kept in a
-- file. Coordinates and confidences are floats that the module only stores: a type `C`. The clock's
-- readings are arguments. The file is the document that it parses to, with `none` for a missing key.
pub mod Laws
use droid_os.Prelude.{
  ℕ, String, Bool, true, false, Option, none, some, List, [], ◌∷◌, ◌++◌, map, any, lookup, insert,
  without, str_eq, contains, join, sorted, is_some, if◌then◌else◌, StrMethods,
}

pub record Place (C : Type 0) : Type 0 where
  pub x : C
  pub y : C
  pub kind : String

pub record Obstacle (C : Type 0) : Type 0 where
  pub x : C
  pub y : C
  pub stamp : ℕ

pub record Sighting (C : Type 0) : Type 0 where
  pub x : C
  pub y : C
  pub confidence : C
  pub stamp : ℕ

-- `self.data`
pub record World (C : Type 0) : Type 0 where
  pub places : List (String × Place C)
  pub restricted : List String
  pub obstacles : List (Obstacle C)
  pub last_seen : List (String × Sighting C)

-- The file: absent, not to be read or no mapping, or a mapping with some of the keys.
pub data WorldFile (C : Type 0) : Type 0 where
  missing unreadable : WorldFile C
  document :
      Option (List (String × Place C))
      → Option (List String)
      → Option (List (Obstacle C))
      → Option (List (String × Sighting C))
      → WorldFile C

pub record WorldModel (C : Type 0) : Type 0 where
  pub world : World C
  pub file : WorldFile C
  pub writable : Bool  -- whether writing the file succeeds

abbrev pub or_else {ℓ} : {A : Type ℓ} → Option A → A → A
or_else none d = d
or_else (some a) d = a

-- `_norm`
unfoldable pub norm : StrMethods → String → String
norm py name = join " " (py.words name)

module _ {C : Type 0} where
  -- `_save`, on the data given
  abbrev pub save : World C → WorldModel C → WorldModel C
  save d w = record w {
    world = d;
    file =
        if w.writable
        then document (some d.places) (some d.restricted) (some d.obstacles) (some d.last_seen)
        else w.file;
  }

  -- `self.data.update(loaded)`
  abbrev pub update_from : WorldFile C → World C → World C
  update_from missing d = d
  update_from unreadable d = d
  update_from (document places restricted obstacles last_seen) d = record {
    places = or_else places d.places;
    restricted = or_else restricted d.restricted;
    obstacles = or_else obstacles d.obstacles;
    last_seen = or_else last_seen d.last_seen;
  }

  -- `_load`, which `_on_configure` calls
  unfoldable pub load : WorldModel C → WorldModel C
  load w = record w { world = update_from w.file w.world }

  unfoldable pub place_names : WorldModel C → List String
  place_names w = sorted (map (λ (p : String × Place C). p.0) w.world.places)

  unfoldable pub note_object : ℕ → String → (x y confidence : C) → WorldModel C → WorldModel C
  note_object now label x y confidence w =
      save
        (record w.world {
          last_seen =
              insert label (record { x = x; y = y; confidence = confidence; stamp = now })
                w.world.last_seen;
        })
        w

  unfoldable pub set_obstacle : ℕ → (x y : C) → WorldModel C → WorldModel C
  set_obstacle now x y w =
      save
        (record w.world {
          obstacles = w.world.obstacles ++ record { x = x; y = y; stamp = now } ∷ [];
        })
        w

  unfoldable pub clear_obstacles : WorldModel C → WorldModel C
  clear_obstacles w = save (record w.world { obstacles = [] }) w

module _ {C : Type 0} (py : StrMethods) where
  unfoldable pub get_place : String → WorldModel C → Option (Place C)
  get_place name w = lookup (norm py name) w.world.places

  unfoldable pub add_place : String → (x y : C) → String → WorldModel C → WorldModel C
  add_place name x y kind w =
      save
        (record w.world {
          places = insert (norm py name) (record { x = x; y = y; kind = kind }) w.world.places;
        })
        w

  unfoldable pub remove_place : String → WorldModel C → WorldModel C × Bool
  remove_place name w =
      if is_some (lookup (norm py name) w.world.places)
      then (save (record w.world { places = without (norm py name) w.world.places }) w, true)
      else (w, false)

  unfoldable pub is_restricted : String → WorldModel C → Bool
  is_restricted name w = any (λ r. str_eq (norm py name) (norm py r)) w.world.restricted

  unfoldable pub add_restricted : String → WorldModel C → WorldModel C
  add_restricted name w =
      save (record w.world { restricted = w.world.restricted ++ norm py name ∷ [] }) w
