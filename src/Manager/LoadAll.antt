-- ===== src/Manager/LoadAll.antt =====
-- internal/manager/manager.go: `LoadAll` and `loadManifest`. Reading directories and files and the
-- TOML parser are an interface on the world of the plugins; logging is left out.
pub mod Collecting
pub mod Order
mod Examples
use dragonfly_wasm.Prelude.{
  ℕ, String, Bool, true, false, not, Option, none, some, List, [], ◌∷◌, ◌++◌, if◌then◌else◌, GoMap,
  get, put, value_or,
}
use dragonfly_wasm.Prelude.Results.{Result, ok, err}
use dragonfly_wasm.Prelude.Sorting.{Sorter}
use dragonfly_wasm.Config.{is_plugin_enabled}
use dragonfly_wasm.Events.{Subscription}
use dragonfly_wasm.Plugin.Manifest.{Manifest, ManifestError, validate}
use dragonfly_wasm.Manager.DependencySort as Sort
use dragonfly_wasm.Manager.DependencySort.{SortError, sort_by_dependencies}
use dragonfly_wasm.Manager.Storage.{Read, read, absent, broken}
use dragonfly_wasm.Manager.Loader.{DirEntry}
use dragonfly_wasm.Manager.Wasm.{Wasm}
use dragonfly_wasm.Manager.Lifecycle.{Manager, Handler, load_plugin}

pub record Directories (W : Type 0) : Type 0 where
  -- os.ReadDir; `absent` is an error that says that there is no such directory
  pub read_dir : String → W → Read (List DirEntry)
  pub read_file : String → W → Result (List ℕ)
  -- toml.Unmarshal
  pub unmarshal : List ℕ → Result Manifest

pub data ManifestResult : Type 0 where
  loaded_manifest : Manifest → ManifestResult
  unreadable unparsable : (err : String) → ManifestResult
  invalid : ManifestError → ManifestResult

pub data LoadAllError : Type 0 where
  make_directory read_directory : (err : String) → LoadAllError
  dependency_resolution : SortError → LoadAllError

-- The variables `manifests` and `manifestPaths`.
pub record Collected : Type 0 where
  pub manifests : List Manifest
  pub paths : GoMap String

unfoldable pub validated : Manifest → Option ManifestError → ManifestResult
validated manifest (some e) = invalid e
validated manifest none = loaded_manifest manifest

unfoldable pub parsed : Result Manifest → ManifestResult
unfolding validated
parsed (err e) = unparsable e
parsed (ok manifest) = validated manifest (validate manifest)

unfoldable pub made_directory : Option String → Option LoadAllError
made_directory none = none
made_directory (some e) = some (make_directory e)

module _ {I W : Type 0} (env : Wasm I W) (dirs : Directories W) where
  unfoldable pub read_manifest : Result (List ℕ) → ManifestResult
  unfolding parsed
  read_manifest (err e) = unreadable e
  read_manifest (ok bytes) = parsed (dirs.unmarshal bytes)

  unfoldable pub load_manifest : String → W → ManifestResult
  unfolding read_manifest
  load_manifest path w = read_manifest (dirs.read_file path w)

  module _ (m : Manager I) where
    -- A manifest that was loaded, unless the configuration switches the plugin off.
    unfoldable pub collect : String → ManifestResult → Collected → Collected
    collect plugin_path (loaded_manifest manifest) c =
        if not (is_plugin_enabled m.config manifest.id) then c else record {
          manifests = c.manifests ++ manifest ∷ [];
          paths = put c.paths manifest.id plugin_path;
        }
    collect plugin_path _ c = c

    unfoldable pub collect_entry : W → DirEntry → Collected → Collected
    unfolding load_manifest collect
    collect_entry w entry c =
        if not entry.is_dir
        then c
        else (let plugin_path = env.join m.config.plugin_dir entry.name in
            collect plugin_path (load_manifest (env.join plugin_path "plugin.toml") w) c)

    unfoldable pub collect_entries : W → List DirEntry → Collected → Collected
    unfolding collect_entry
    collect_entries w [] c = c
    collect_entries w (entry ∷ entries) c = collect_entries w entries (collect_entry w entry c)

  module _ (sorter : Sorter (Subscription Handler)) where
    -- The loop over the sorted manifests; an error is logged.
    unfoldable pub load_each : GoMap String → List Manifest → Manager I × W → Manager I × W
    load_each paths [] s = s
    load_each paths (manifest ∷ manifests) (m, w) =
        let (e, m', w') =
          load_plugin env sorter manifest m (value_or (get paths manifest.id) "") w in
        load_each paths manifests (m', w')

    unfoldable pub load_sorted :
        GoMap String
        → Sort.Result (List Manifest)
        → Manager I × W
        → Option LoadAllError × (Manager I × W)
    unfolding load_each
    load_sorted paths (Sort.err e) s = (some (dependency_resolution e), s)
    load_sorted paths (Sort.ok sorted) s = (none, load_each paths sorted s)

    unfoldable pub load_entries :
        Manager I → List DirEntry → W → Option LoadAllError × (Manager I × W)
    unfolding load_sorted collect_entries
    load_entries m entries w =
        let c = collect_entries m w entries (record { manifests = []; paths = [] }) in
        load_sorted c.paths (sort_by_dependencies c.manifests) (m, w)

    unfoldable pub load_read :
        Manager I → Read (List DirEntry) → W → Option LoadAllError × (Manager I × W)
    unfolding load_entries made_directory
    load_read m (read entries) w = load_entries m entries w
    load_read m absent w =
        let (e, w') = env.mkdir_all m.config.plugin_dir w in (made_directory e, (m, w'))
    load_read m (broken e) w = (some (read_directory e), (m, w))

    unfoldable pub load_all : Manager I → W → Option LoadAllError × (Manager I × W)
    unfolding load_read
    load_all m w = load_read m (dirs.read_dir m.config.plugin_dir w) w
