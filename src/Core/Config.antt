-- ===== src/Core/Config.antt =====
-- The layered configuration of `src/droidos/core/config.py`: a value is a leaf or a dictionary. The
-- paths of the file system are not modelled.
pub mod Layers
use droid_os.Prelude.{
  String, Bool, true, false, Option, none, some, List, [], ◌∷◌, lookup, insert, str_eq, is_some,
  if◌then◌else◌, Result, ok, err,
}

-- A value in which nothing is looked up. A number is kept as it is written.
pub data Scalar : Type 0 where
  text number : String → Scalar
  items : List String → Scalar

mutual
  -- what `miniyaml` reads
  pub data Value : Type 0 where
    leaf : Scalar → Value
    mapping : Entries → Value

  pub data Entries : Type 0 where
    empty : Entries
    entry : String → Value → Entries → Entries

-- `data[key]`, if the key is there
unfoldable pub find : String → Entries → Option Value
find key empty = none
find key (entry k v rest) = if str_eq k key then some v else find key rest

-- `out[key] = val`
unfoldable pub put : String → Value → Entries → Entries
put key val empty = entry key val empty
put key val (entry k v rest) =
    let deeper = put key val rest in if str_eq k key then entry key val rest else entry k v deeper

unfoldable mutual
  unfolding put find

  -- the value of a key, where the base has one already
  pub merge_value : Option Value → Value → Value
  merge_value (some (mapping base)) (mapping over) = mapping (deep_merge base over)
  merge_value old val = val

  -- `_deep_merge`
  pub deep_merge : Entries → Entries → Entries
  deep_merge out empty = out
  deep_merge out (entry key val rest) =
      deep_merge (put key (merge_value (find key out) val) out) rest

-- `Config.get`, where `none` is the default
unfoldable pub get : List String → Value → Option Value
unfolding find
get [] node = some node
get (key ∷ keys) (leaf s) = none
get (key ∷ keys) (mapping es) = elim (find key es) [ none ↦ none | some v ↦ get keys v ]

abbrev identity : Entries
identity = entry "name" (leaf (text "IG-12")) (
    entry "model_family" (leaf (text "assassin_droid")) (
      entry "voice_profile" (leaf (text "mechanical_01")) (
        entry "personality_profile" (leaf (text "dry_literal")) (
          entry "verbosity" (leaf (text "concise"))
            (entry "wake_names" (leaf (items ("IG-12" ∷ "droid" ∷ []))) empty)))))

abbrev providers : Entries
providers = entry "offline" (mapping (entry "type" (leaf (text "offline")) empty)) (
    entry "local"
      (mapping (
        entry "type" (leaf (text "llama_cpp")) (
          entry "endpoint" (leaf (text "unix:///run/droidos/llm.sock"))
            (entry "model" (leaf (text "/var/lib/droidos/models/default.gguf")) empty))))
      empty)

abbrev language : Entries
language = entry "primary_provider" (leaf (text "offline")) (
    entry "fallback_provider" (leaf (text "offline")) (entry "providers" (mapping providers) empty))

abbrev safety : Entries
safety = entry "battery_motion_minimum_percent" (leaf (number "20.0")) (
    entry "motor_warn_temp_c" (leaf (number "70.0"))
      (entry "motor_fault_temp_c" (leaf (number "85.0")) empty))

-- `DEFAULT_SYSTEM_CONFIG`
abbrev pub default_config : Entries
default_config = entry "identity" (mapping identity) (
    entry "language" (mapping language)
      (entry "safety" (mapping safety) (entry "default_user" (leaf (text "operator")) empty)))

-- `droidos.yaml`: it is not there, or what is read from it counts as false, or it does not.
pub data ConfigFile : Type 0 where
  missing blank : ConfigFile
  holds : Value → ConfigFile

-- `Config.load`, with the text of `ConfigError`
unfoldable pub load : ConfigFile → Result String Entries
unfolding deep_merge
load missing = ok default_config
load blank = ok (deep_merge default_config empty)
load (holds (leaf s)) = err "droidos.yaml must be a mapping"
load (holds (mapping es)) = ok (deep_merge default_config es)
