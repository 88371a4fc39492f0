-- ===== src/Core/Config/Layers.antt =====
-- What a layer of the configuration changes.
use droid_os.Prelude.{
  String, ◌≡◌, refl, ◌∙◌, ap, if-elim, Bool, true, false, not, ◌&&◌, Option, none, some, List, [],
  ◌∷◌, arith, eq_iff, str_eq, is_some, Result, ok, err, if◌then◌else◌,
}
use droid_os.Core.Config.{
  Scalar, Value, leaf, mapping, Entries, empty, entry, find, put, merge_value, deep_merge, get,
  load, holds, default_config,
}

-- A dictionary has a key once, on every level.
unfoldable mutual
  unfolding find

  pub distinct_value : Value → Bool
  distinct_value (leaf s) = true
  distinct_value (mapping es) = distinct es

  pub distinct : Entries → Bool
  distinct empty = true
  distinct (entry key v rest) = not (is_some (find key rest)) && (distinct_value v && distinct rest)

find-put :
    (key other : String) (v : Value) (es : Entries)
    → find other (put key v es) ≡ (if str_eq key other then some v else find other es)
unfolding find put
find-put key other v empty = refl
find-put key other v (entry k w rest) =
    ground (arith, find-put key other v rest, eq_iff k key, eq_iff k other, eq_iff key other)

-- a key's value in the merged dictionary
abbrev layered : Option Value → Option Value → Option Value
layered old none = old
layered old (some v) = some (merge_value old v)

find-deep_merge :
    (key : String) (out over : Entries)
    → distinct over ≡ true
    → find key (deep_merge out over) ≡ layered (find key out) (find key over)
unfolding find distinct deep_merge
find-deep_merge key out empty h = refl
find-deep_merge key out (entry k v rest) h =
    let mv = merge_value (find k out) v in
    let later = find-deep_merge key (put k mv out) rest (ground (arith, h)) in
    if-elim (λ o. find key (deep_merge (put k mv out) rest) ≡ layered (find key out) o)
      (str_eq k key) (λ y. ground (arith, h, later, y, eq_iff k key, find-put k key mv out))
      (λ n. ground (arith, later, n, find-put k key mv out))

-- whether the layer sets nothing on that path: it has the mappings down to a key that it lacks
unfoldable pub leaves_alone : List String → Entries → Bool
unfolding find
leaves_alone [] es = false
leaves_alone (key ∷ keys) es = elim (find key es) [
  | none ↦ true
  | some v ↦ elim v [ leaf s ↦ false | mapping inner ↦ leaves_alone keys inner ]
]

found-distinct :
    (key : String) (es : Entries) (v : Value)
    → distinct es ≡ true
    → find key es ≡ some v
    → distinct_value v ≡ true
unfolding find distinct
found-distinct key empty v h e = absurd (ground (arith, e))
found-distinct key (entry k w rest) v h e = ground (arith, h, e, found-distinct key rest v)

abbrev get_in : List String → Option Value → Option Value
get_in keys none = none
get_in keys (some v) = get keys v

-- the same, on a value that a key may have
abbrev alone_in : List String → Option Value → Bool
alone_in keys none = true
alone_in keys (some (leaf s)) = false
alone_in keys (some (mapping inner)) = leaves_alone keys inner

wins_below :
    (keys : List String) (old new : Option Value) (s : Scalar)
    → ((base over : Entries)
        → distinct over ≡ true
        → get keys (mapping over) ≡ some (leaf s)
        → get keys (mapping (deep_merge base over)) ≡ some (leaf s))
    → ((v : Value) → new ≡ some v → distinct_value v ≡ true)
    → get_in keys new ≡ some (leaf s)
    → get_in keys (layered old new) ≡ some (leaf s)
unfolding get deep_merge distinct
wins_below keys old none s deeper h e = absurd (ground (arith, e))
wins_below keys none (some v) s deeper h e = e
wins_below keys (some (leaf t)) (some v) s deeper h e = e
wins_below keys (some (mapping b)) (some (leaf t)) s deeper h e = e
wins_below keys (some (mapping b)) (some (mapping o)) s deeper h e =
    deeper b o (h (mapping o) refl) e

keeps_below :
    (keys : List String) (old new : Option Value) (v : Value)
    → ((base over : Entries)
        → distinct over ≡ true
        → leaves_alone keys over ≡ true
        → get keys (mapping base) ≡ some v
        → get keys (mapping (deep_merge base over)) ≡ some v)
    → ((v : Value) → new ≡ some v → distinct_value v ≡ true)
    → alone_in keys new ≡ true
    → get_in keys old ≡ some v
    → get_in keys (layered old new) ≡ some v
unfolding get deep_merge distinct leaves_alone
keeps_below keys old none v deeper h a e = e
keeps_below keys old (some (leaf t)) v deeper h a e = absurd (ground (arith, a))
keeps_below keys none (some (mapping o)) v deeper h a e = absurd (ground (arith, e))
keeps_below [] (some (leaf t)) (some (mapping o)) v deeper h a e = absurd (ground (arith, a))
keeps_below (k ∷ ks) (some (leaf t)) (some (mapping o)) v deeper h a e = absurd (ground (arith, e))
keeps_below keys (some (mapping b)) (some (mapping o)) v deeper h a e =
    deeper b o (h (mapping o) refl) a e

-- what the configuration that is loaded has on a path
abbrev pub get_loaded : List String → Result String Entries → Option Value
get_loaded path (err e) = none
get_loaded path (ok es) = get path (mapping es)

-- A leaf that a layer sets is the merged configuration's, whatever the layer below has there.
pub layer_wins :
    (path : List String) (base over : Entries) (s : Scalar)
    → distinct over ≡ true
    → get path (mapping over) ≡ some (leaf s)
    → get path (mapping (deep_merge base over)) ≡ some (leaf s)
unfolding get
layer_wins [] base over s h e = absurd (ground (arith, e))
layer_wins (key ∷ keys) base over s h e =
    ap (get_in keys) (find-deep_merge key base over h)
    ∙ wins_below keys (find key base) (find key over) s (λ b o. layer_wins keys b o s)
        (λ v. found-distinct key over v h) e

-- What a layer leaves alone stays as it is below.
pub layer_keeps :
    (path : List String) (base over : Entries) (v : Value)
    → distinct over ≡ true
    → leaves_alone path over ≡ true
    → get path (mapping base) ≡ some v
    → get path (mapping (deep_merge base over)) ≡ some v
unfolding get leaves_alone
layer_keeps [] base over v h a e = absurd (ground (arith, a))
layer_keeps (key ∷ keys) base over v h a e =
    ap (get_in keys) (find-deep_merge key base over h)
    ∙ keeps_below keys (find key base) (find key over) v (λ b o. layer_keeps keys b o v)
        (λ w. found-distinct key over w h) a e

-- A setting of the default configuration that the file leaves alone is the loaded configuration's.
pub load-keeps :
    (path : List String) (over : Entries) (v : Value)
    → distinct over ≡ true
    → leaves_alone path over ≡ true
    → get path (mapping default_config) ≡ some v
    → get_loaded path (load (holds (mapping over))) ≡ some v
unfolding load
load-keeps path over v h a e = layer_keeps path default_config over v h a e

-- A scalar or a list that the file sets is the loaded configuration's, on every path, whatever the
-- default configuration has there.
pub load-wins :
    (path : List String) (over : Entries) (s : Scalar)
    → distinct over ≡ true
    → get path (mapping over) ≡ some (leaf s)
    → get_loaded path (load (holds (mapping over))) ≡ some (leaf s)
unfolding load
load-wins path over s h e = layer_wins path default_config over s h e
