-- ===== src/Manager/Storage.antt =====
-- internal/manager/storage.go: the storages of plugins. The file system and the JSON codec are an
-- interface on a world `W`. A nil map of values reads and ranges like an empty one, and is one here.
pub mod Memory
pub mod File
pub mod Contract
mod Examples
use dragonfly_wasm.Prelude.{
  ℕ, String, Bool, Option, none, some, List, [], GoMap, get, put, delete, value_or,
}

-- The two results of reading; `absent` is an error that says that there is no such file.
pub data Read (A : Type 0) : Type 0 where
  read : A → Read A
  absent : Read A
  broken : (err : String) → Read A

abbrev pub Values : Type 0
Values = GoMap (List ℕ)

-- The two results of the JSON codec.
pub data Coded (A : Type 0) : Type 0 where
  coded : A → Coded A
  refused : (err : String) → Coded A

pub record Files (W : Type 0) : Type 0 where
  -- os.MkdirAll, os.RemoveAll and os.WriteFile answer an error
  pub mkdir_all : String → W → Option String × W
  pub remove_all : String → W → Option String × W
  pub write_file : String → List ℕ → W → Option String × W
  -- os.ReadDir: the names, and whether they are directories
  pub read_dir : String → W → Read (List (String × Bool))
  pub read_file : String → W → Read (List ℕ)
  -- json.Marshal and json.Unmarshal
  pub marshal : Values → Coded (List ℕ)
  pub unmarshal : List ℕ → Coded Values
  -- filepath.Join
  pub join : String → String → String

-- value, exists := pluginData[key], when there is a `pluginData`
abbrev read_value : Option Values → String → Option (List ℕ)
read_value none key = none
read_value (some plugin_data) key = get plugin_data key

-- s.data[pluginID][key], as a value if it exists. The error of `Get` is always nil.
unfoldable pub get_value : GoMap Values → String → String → Option (List ℕ)
get_value m plugin_id key = read_value (get m plugin_id) key

-- s.data[pluginID][key] = value, where the plugin's map is made when it is missing
unfoldable pub write_value : GoMap Values → String → String → List ℕ → GoMap Values
write_value m plugin_id key value = put m plugin_id (put (value_or (get m plugin_id) []) key value)

-- delete(s.data[pluginID], key), for a plugin that has a map
unfoldable pub remove_value : GoMap Values → String → Values → String → GoMap Values
remove_value m plugin_id plugin_data key = put m plugin_id (delete plugin_data key)
