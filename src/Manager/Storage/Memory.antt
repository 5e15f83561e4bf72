-- ===== src/Manager/Storage/Memory.antt =====
-- internal/manager/storage.go: `MemoryStorage`, as the map that it holds. Its errors are always nil.
use dragonfly_wasm.Prelude.{ℕ, String, Option, none, some, List, [], GoMap, get, delete}
use dragonfly_wasm.Manager.Storage.{Values, write_value, remove_value}

abbrev pub MemoryStorage : Type 0
MemoryStorage = GoMap Values

abbrev pub new_memory_storage : MemoryStorage
new_memory_storage = []

unfoldable pub set : MemoryStorage → String → String → List ℕ → MemoryStorage
set s plugin_id key value = write_value s plugin_id key value

unfoldable pub delete_of : MemoryStorage → String → String → Option Values → MemoryStorage
delete_of s plugin_id key none = s
delete_of s plugin_id key (some plugin_data) = remove_value s plugin_id plugin_data key

unfoldable pub delete_key : MemoryStorage → String → String → MemoryStorage
unfolding delete_of
delete_key s plugin_id key = delete_of s plugin_id key (get s plugin_id)

unfoldable pub clear : MemoryStorage → String → MemoryStorage
clear s plugin_id = delete s plugin_id
