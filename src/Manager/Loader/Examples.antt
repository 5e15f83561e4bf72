-- ===== src/Manager/Loader/Examples.antt =====
-- Runs of the loader, and the theorems at concrete inputs.
use dragonfly_wasm.Prelude.{
  ℕ, String, ◌≡◌, refl, ◌⊎◌, ◌↔◌, false, true, Option, none, some, List, [], ◌∷◌, All, Distinct,
  map,
}
use dragonfly_wasm.Prelude.Results.{Result}
use dragonfly_wasm.Prelude.Results as Results
use dragonfly_wasm.Config.{Config, default_config}
use dragonfly_wasm.Plugin.Manifest.{Manifest}
use dragonfly_wasm.Manager.Examples.{plugin, requires, base, shop, late}
use dragonfly_wasm.Manager.DependencySort as Sort
use dragonfly_wasm.Manager.DependencySort.{sort_by_dependencies}
use dragonfly_wasm.Manager.Loader.{DiscoveredPlugin, Files, found, discover}
use dragonfly_wasm.Manager.Loader.Discovery.{IsDiscovered, discover-IsDiscovered}
use dragonfly_wasm.Manager.Loader.Resolution.{
  ok, err, missing_dependency, circular_dependency, resolve_dependencies, plugin_ids,
}
use dragonfly_wasm.Manager.Loader.Visiting.{Leads}
use dragonfly_wasm.Manager.Loader.Resolved.{by_id, IsResolved, HasRequired, Missing, resolve_ends}
use dragonfly_wasm.Manager.Loader.Circles.{resolve_iff}
use dragonfly_wasm.Manager.Loader.Agreement.{resolve_iff-sort}
use dragonfly_wasm.Manager.Loader.Manifests.{manifests_of}

abbrev found_in : Manifest → DiscoveredPlugin
found_in m = record { manifest = m; wasm_path = "plugin.wasm"; data_path = m.id; directory = "dir" }

abbrev three : List DiscoveredPlugin
three = map found_in (late ∷ shop ∷ base ∷ [])

resolve-run : resolve_dependencies three ≡ ok (map found_in (base ∷ shop ∷ late ∷ []))
unfolding resolve_dependencies dragonfly_wasm.Prelude.get dragonfly_wasm.Prelude.put
resolve-run = refl

circle-run :
    resolve_dependencies (
      map found_in
        (plugin "a.a" (requires "b.b" ∷ []) [] ∷ plugin "b.b" [] ("a.a" ∷ []) ∷ base ∷ []))
    ≡ err (circular_dependency "a.a")
unfolding resolve_dependencies dragonfly_wasm.Prelude.get dragonfly_wasm.Prelude.put
circle-run = refl

resolve_ends_example :
    ((r : List DiscoveredPlugin) × (resolve_dependencies three ≡ ok r)
      × IsResolved three r
      × HasRequired (by_id three) three)
    ⊎ ((plugin dependency : String) × (resolve_dependencies three
          ≡ err (missing_dependency plugin dependency))
        × Missing (by_id three) three plugin dependency)
    ⊎ ((k : String) × (resolve_dependencies three ≡ err (circular_dependency k))
        × Leads (by_id three) k k
        × HasRequired (by_id three) three)
resolve_ends_example = resolve_ends three

resolve_iff_example :
    ((r : List DiscoveredPlugin) × (resolve_dependencies three ≡ ok r))
    ↔ (HasRequired (by_id three) three × ((k : String) → ¬ Leads (by_id three) k k))
resolve_iff_example = resolve_iff three

three-Distinct : Distinct (plugin_ids three)
unfolding dragonfly_wasm.Prelude.contains
three-Distinct = (refl, (refl, (refl, tt)))

resolve_iff-sort_example :
    ((r : List DiscoveredPlugin) × (resolve_dependencies three ≡ ok r))
    ↔ ((out : List Manifest) × (sort_by_dependencies (manifests_of three) ≡ Sort.ok out))
resolve_iff-sort_example = resolve_iff-sort three three-Distinct

-- A plugin directory with one plugin and a file.
abbrev one_plugin : Files (Unit {0})
one_plugin = record {
  mkdir_all = λ path w. (none, w);
  read_dir = λ path w. Results.ok (
      record { name = "README.md"; is_dir = false } ∷ record { name = "base"; is_dir = true } ∷ []);
  read_file = λ path w. Results.ok (1 ∷ []);
  is_missing = λ path w. false;
  unmarshal = λ bytes. Results.ok base;
  join = λ a b. b;
}

abbrev base_found : List DiscoveredPlugin
base_found =
    record {
      manifest = base;
      wasm_path = "plugin.wasm";
      data_path = "org.base";
      directory = "base";
    }
    ∷ []

discover-run : discover one_plugin default_config tt ≡ (found base_found, tt)
unfolding discover dragonfly_wasm.Plugin.Manifest.validate dragonfly_wasm.Plugin.Regex.matches
    dragonfly_wasm.Config.is_plugin_enabled dragonfly_wasm.Prelude.contains
discover-run = refl

discover-IsDiscovered_example : All (IsDiscovered one_plugin default_config tt) base_found
discover-IsDiscovered_example =
    discover-IsDiscovered one_plugin default_config tt tt base_found discover-run
