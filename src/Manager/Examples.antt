-- ===== src/Manager/Examples.antt =====
-- Runs of the manager's functions, and the theorems at concrete inputs.
use mathlib.Core.List.{Memᴰ}
use dragonfly_wasm.Prelude.{
  ℕ, ◌<◌, String, ◌≡◌, refl, ◌⊎◌, inl, inr, Bool, true, false, Option, none, some, List, [], ◌∷◌,
  arith, All, Distinct, GoMap, str_eq, if◌then◌else◌,
}
use dragonfly_wasm.Prelude.Int.{pos}
use dragonfly_wasm.Plugin.Version.{Version}
use dragonfly_wasm.Plugin.Manifest.{Manifest, Dependency, default_resource_limits}
use dragonfly_wasm.Manager.DependencySort.{
  Result, ok, err, missing_dependency, circular_dependency, manifest_map, sort_by_dependencies,
}
use dragonfly_wasm.Manager.DependencySort.Start.{ids}
use dragonfly_wasm.Manager.DependencySort.Required.{HasRequired, Missing}
use dragonfly_wasm.Manager.DependencySort.Complete.{IsRank}
use dragonfly_wasm.Manager.DependencySort.Correct.{IsSorted, sort_ends, sort_sound, sort_complete}

abbrev pub one : Version
one = record { major = pos 1; minor = pos 0; patch = pos 0 }

abbrev pub plugin : String → List Dependency → List String → Manifest
plugin id dependencies load_after = record {
  id = id;
  name = id;
  version = one;
  description = "";
  authors = [];
  website = "";
  license = "";
  api_version = one;
  entry_point = "plugin.wasm";
  events = [];
  dependencies = dependencies;
  limits = default_resource_limits;
  load_before = [];
  load_after = load_after;
}

abbrev pub requires : String → Dependency
requires id = record { id = id; version = one; optional = false }

abbrev pub base : Manifest
base = plugin "org.base" [] []

-- Needs `org.base`, and would use a plugin that is not there.
abbrev pub shop : Manifest
shop =
    plugin "com.shop" (requires "org.base" ∷ record (requires "com.none") { optional = true } ∷ [])
      []

abbrev pub late : Manifest
late = plugin "app.late" [] ("com.shop" ∷ "com.gone" ∷ [])

abbrev three : List Manifest
three = late ∷ shop ∷ base ∷ []

abbrev sorted : List Manifest
sorted = base ∷ shop ∷ late ∷ []

sort-run : sort_by_dependencies three ≡ ok sorted
unfolding sort_by_dependencies dragonfly_wasm.Prelude.get dragonfly_wasm.Prelude.put
    dragonfly_wasm.Prelude.sort_strings dragonfly_wasm.Manager.DependencySort.add_if
sort-run = refl

circle-run :
    sort_by_dependencies
      (plugin "a.a" (requires "b.b" ∷ []) [] ∷ plugin "b.b" [] ("a.a" ∷ []) ∷ base ∷ [])
    ≡ err circular_dependency
unfolding sort_by_dependencies dragonfly_wasm.Prelude.get dragonfly_wasm.Prelude.put
    dragonfly_wasm.Prelude.sort_strings dragonfly_wasm.Manager.DependencySort.add_if
circle-run = refl

sort_sound_example : IsSorted three sorted
sort_sound_example = sort_sound three sorted sort-run

abbrev rank : String → ℕ
rank id = if str_eq id "org.base" then 0 else if str_eq id "com.shop" then 1 else 2

three-HasRequired : HasRequired (manifest_map three []) three
unfolding manifest_map dragonfly_wasm.Prelude.get dragonfly_wasm.Prelude.put
three-HasRequired = (tt, ((refl, (refl, tt)), (tt, tt)))

three-Distinct : Distinct (ids three)
unfolding dragonfly_wasm.Prelude.contains
three-Distinct = (refl, (refl, (refl, tt)))

three-IsRank : IsRank (manifest_map three []) rank three
unfolding manifest_map dragonfly_wasm.Prelude.get dragonfly_wasm.Prelude.put
three-IsRank = ((omega arith, tt), ((omega arith, tt), (tt, tt)))

sort_complete_example : (r : List Manifest) × (sort_by_dependencies three ≡ ok r) × IsSorted three r
sort_complete_example = sort_complete three rank three-HasRequired three-Distinct three-IsRank

abbrev lonely : List Manifest
lonely = late ∷ shop ∷ []

lonely-Missing : Missing (manifest_map lonely []) lonely "com.shop" "org.base"
unfolding manifest_map dragonfly_wasm.Prelude.get dragonfly_wasm.Prelude.put
lonely-Missing = record {
  manifest = shop;
  listed = Memᴰ.tail (Memᴰ.head refl);
  named = refl;
  requirement = requires "org.base";
  required = Memᴰ.head refl;
  required_id = refl;
  not_optional = refl;
  absent = refl;
}

abbrev twice : List Manifest
twice = base ∷ shop ∷ base ∷ []

twice-HasRequired : HasRequired (manifest_map twice []) twice
unfolding manifest_map dragonfly_wasm.Prelude.get dragonfly_wasm.Prelude.put
twice-HasRequired = (tt, ((refl, (refl, tt)), (tt, tt)))

twice-repeats : ¬ Distinct (ids twice)
unfolding dragonfly_wasm.Prelude.contains
twice-repeats (h, _) = cc

sort_ends_example :
    ((r : List Manifest) × (sort_by_dependencies twice ≡ ok r)
      × IsSorted twice r
      × Distinct (ids twice)
      × HasRequired (manifest_map twice []) twice)
    ⊎ ((p d : String) × (sort_by_dependencies twice ≡ err (missing_dependency p d))
        × Missing (manifest_map twice []) twice p d)
    ⊎ ((sort_by_dependencies twice ≡ err circular_dependency)
        × HasRequired (manifest_map twice []) twice)
sort_ends_example = sort_ends twice
