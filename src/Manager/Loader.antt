-- ===== src/Manager/Loader.antt =====
-- internal/manager/loader.go: `Loader`. Discovery reads the plugin directory, and the dependencies
-- are resolved by a depth-first search. The file system and the TOML parser are an interface on a
-- world `W`; logging is left out.
pub mod Resolution
pub mod Discovery
pub mod Visits
pub mod Visiting
pub mod Resolved
pub mod Circles
pub mod Manifests
pub mod Agreement
mod Examples
use dragonfly_wasm.Prelude.{
  ℕ, String, Bool, true, false, not, Option, none, some, List, [], ◌∷◌, ◌++◌, if◌then◌else◌,
}
use dragonfly_wasm.Prelude.Results.{Result, ok, err}
use dragonfly_wasm.Config.{Config, is_plugin_enabled}
use dragonfly_wasm.Plugin.Manifest.{Manifest, ManifestError, validate}

pub record DiscoveredPlugin : Type 0 where
  pub manifest : Manifest
  pub wasm_path : String
  pub data_path : String
  pub directory : String

-- A name in a directory, and whether it is a directory.
pub record DirEntry : Type 0 where
  pub name : String
  pub is_dir : Bool

pub record Files (W : Type 0) : Type 0 where
  -- os.MkdirAll
  pub mkdir_all : String → W → Option String × W
  pub read_dir : String → W → Result (List DirEntry)
  pub read_file : String → W → Result (List ℕ)
  -- Whether the error of os.Stat says that there is no such file.
  pub is_missing : String → W → Bool
  -- toml.Unmarshal
  pub unmarshal : List ℕ → Result Manifest
  -- filepath.Join
  pub join : String → String → String

pub data DiscoverError : Type 0 where
  manifest_not_found : DiscoverError
  read_manifest parse_manifest : (err : String) → DiscoverError
  invalid_manifest : ManifestError → DiscoverError
  wasm_not_found : (entry_point : String) → DiscoverError
  create_data_directory create_plugin_directory read_plugin_directory :
      (err : String) → DiscoverError

pub data Found (A : Type 0) : Type 0 where
  found : A → Found A
  failed : DiscoverError → Found A

module _ {W : Type 0} (files : Files W) (cfg : Config) where
  -- The last step: the data directory was made, or not.
  unfoldable pub with_data_directory :
      DiscoveredPlugin → Option String × W → Found DiscoveredPlugin × W
  with_data_directory dp (none, w) = (found dp, w)
  with_data_directory dp (some e, w) = (failed (create_data_directory e), w)

  unfoldable pub load_valid :
      String → Manifest → Option ManifestError → W → Found DiscoveredPlugin × W
  unfolding with_data_directory
  load_valid dir manifest (some e) w = (failed (invalid_manifest e), w)
  load_valid dir manifest none w =
      let wasm_path = files.join dir manifest.entry_point in
      let data_path = files.join cfg.data_dir manifest.id in
      if files.is_missing wasm_path w
      then (failed (wasm_not_found manifest.entry_point), w)
      else with_data_directory
          (record {
            manifest = manifest;
            wasm_path = wasm_path;
            data_path = data_path;
            directory = dir;
          })
          (files.mkdir_all data_path w)

  unfoldable pub load_parsed : String → Result Manifest → W → Found DiscoveredPlugin × W
  unfolding load_valid
  load_parsed dir (err e) w = (failed (parse_manifest e), w)
  load_parsed dir (ok manifest) w = load_valid dir manifest (validate manifest) w

  unfoldable pub load_read : String → Result (List ℕ) → W → Found DiscoveredPlugin × W
  unfolding load_parsed
  load_read dir (err e) w = (failed (read_manifest e), w)
  load_read dir (ok bytes) w = load_parsed dir (files.unmarshal bytes) w

  unfoldable pub load_from_directory : String → W → Found DiscoveredPlugin × W
  unfolding load_read
  load_from_directory dir w =
      let manifest_path = files.join dir "plugin.toml" in
      if files.is_missing manifest_path w
      then (failed manifest_not_found, w)
      else load_read dir (files.read_file manifest_path w) w

  -- A plugin that was found, unless the configuration switches it off.
  unfoldable pub keep_enabled :
      List DiscoveredPlugin → Found DiscoveredPlugin → List DiscoveredPlugin
  keep_enabled discovered (failed e) = discovered
  keep_enabled discovered (found dp) =
      if not (is_plugin_enabled cfg dp.manifest.id) then discovered else discovered ++ dp ∷ []

  -- One entry of the plugin directory.
  unfoldable pub discover_entry : DirEntry → List DiscoveredPlugin × W → List DiscoveredPlugin × W
  unfolding load_from_directory keep_enabled
  discover_entry entry (discovered, w) =
      if not entry.is_dir
      then (discovered, w)
      else (let (r, w') = load_from_directory (files.join cfg.plugin_dir entry.name) w in
          (keep_enabled discovered r, w'))

  unfoldable pub discover_entries :
      List DirEntry → List DiscoveredPlugin × W → List DiscoveredPlugin × W
  unfolding discover_entry
  discover_entries [] s = s
  discover_entries (entry ∷ entries) s = discover_entries entries (discover_entry entry s)

  unfoldable pub found_of : List DiscoveredPlugin × W → Found (List DiscoveredPlugin) × W
  found_of (discovered, w) = (found discovered, w)

  unfoldable pub discover_read : Result (List DirEntry) → W → Found (List DiscoveredPlugin) × W
  unfolding discover_entries found_of
  discover_read (err e) w = (failed (read_plugin_directory e), w)
  discover_read (ok entries) w = found_of (discover_entries entries ([], w))

  unfoldable pub discover_made : Option String × W → Found (List DiscoveredPlugin) × W
  unfolding discover_read
  discover_made (some e, w) = (failed (create_plugin_directory e), w)
  discover_made (none, w) = discover_read (files.read_dir cfg.plugin_dir w) w

  unfoldable pub discover : W → Found (List DiscoveredPlugin) × W
  unfolding discover_made
  discover w = discover_made (files.mkdir_all cfg.plugin_dir w)
