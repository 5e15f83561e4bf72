-- ===== src/Manager/LoadAll/Examples.antt =====
-- A run of `LoadAll`, and the theorem about it there.
use dragonfly_wasm.Prelude.{
  ℕ, String, ◌≡◌, refl, true, false, Option, none, some, List, [], ◌∷◌, str_eq, if◌then◌else◌,
}
use dragonfly_wasm.Prelude.Results.{ok}
use dragonfly_wasm.Manager.Storage.{read}
use dragonfly_wasm.Manager.LifecycleExamples.{env, greeter, sorter, empty}
use dragonfly_wasm.Manager.LoadAll.{Directories, load_all}
use dragonfly_wasm.Manager.LoadAll.Order.{LoadAllEnd, load_all_ends}

-- A file and a directory with a plugin.
abbrev dirs : Directories ℕ
dirs = record {
  read_dir = λ path w. read (
      record { name = "README.md"; is_dir = false }
      ∷ record { name = "greeter"; is_dir = true }
      ∷ []);
  read_file = λ path w. ok (1 ∷ []);
  unmarshal = λ bytes. ok greeter;
}

load_all-run : (load_all env dirs sorter empty 0).1.0.load_order ≡ "com.example" ∷ []
unfolding load_all dragonfly_wasm.Plugin.Manifest.validate dragonfly_wasm.Plugin.Regex.matches
    dragonfly_wasm.Config.is_plugin_enabled dragonfly_wasm.Prelude.contains
    dragonfly_wasm.Prelude.get dragonfly_wasm.Prelude.put dragonfly_wasm.Prelude.sort_strings
    dragonfly_wasm.Manager.DependencySort.sort_by_dependencies
    dragonfly_wasm.Manager.Lifecycle.load_plugin dragonfly_wasm.Manager.Lifecycle.load_ready
    dragonfly_wasm.Manager.DependencySort.add_if
load_all-run = refl

load_all_ends_example :
    LoadAllEnd env dirs sorter empty 0
      (dirs.read_dir empty.config.plugin_dir 0)
      (load_all env dirs sorter empty 0)
load_all_ends_example = load_all_ends env dirs sorter empty 0
