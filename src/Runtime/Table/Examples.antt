-- ===== src/Runtime/Table/Examples.antt =====
-- Runs of the runtime's table, and its theorems at concrete inputs.
use dragonfly_wasm.Prelude.{
  ℕ, ◌+◌, String, ◌≡◌, refl, true, false, Option, none, some, List, [], ◌∷◌, GoMap, get,
}
use dragonfly_wasm.Prelude.Int.{pos}
use dragonfly_wasm.Prelude.Heap.{get_elem?}
use dragonfly_wasm.Config.{default_runtime_config}
use dragonfly_wasm.Manager.Wasm.{Wasm, created, result}
use dragonfly_wasm.Runtime.Instance.{
  PluginInstance, Outcome, output, not_enabled, loaded, unloaded, new_plugin_metrics, enable,
}
use dragonfly_wasm.Runtime.Table.{
  Runtime, Create, ConfigValue, text, other, new_runtime, config_strings, load_plugin, call_plugin,
  unload_plugin, call_pointed, close, get_instance, is_state_unloaded,
}
use dragonfly_wasm.Runtime.Table.Consistent.{IsTable}
use dragonfly_wasm.Runtime.Table.Steps.{Reach, here, next, loads, Reach-IsTable}
use dragonfly_wasm.Runtime.Table.Closing.{close-unloads}
use dragonfly_wasm.Runtime.Table.Handles.{unload-silences}

-- The world counts what extism does.
abbrev env : Wasm String ℕ
env = record {
  mkdir_all = λ path w. (none, w);
  new_plugin = λ path pages w. (created path, w + 1);
  function_exists = λ i name. true;
  call = λ i name input w. (record { output = []; err = none }, w + 1);
  call_within = λ timeout i name input w. (result (record { output = 7 ∷ []; err = none }), w + 1);
  close = λ i w. w + 1;
  now = λ w. (pos w, w);
  since = λ start w. (pos 1, w);
  expired = λ timeout w. false;
  join = λ path name. name;
}

abbrev create : Create String ℕ
create = λ path pages config w. (created path, w + 1)

abbrev settings : GoMap ConfigValue
settings = ("motd", text "hello") ∷ ("slots", other) ∷ []

settings-run : config_strings settings [] ≡ ("motd", "hello") ∷ []
unfolding config_strings dragonfly_wasm.Prelude.put
settings-run = refl

abbrev empty : Runtime String String
empty = new_runtime default_runtime_config

abbrev with_chat : Runtime String String
with_chat = (load_plugin env create empty "chat" "chat.toml" settings "chat.wasm" 0).1

called-run : (call_plugin env "chat" "handle_event" [] with_chat 5).0 ≡ some (output (7 ∷ []))
unfolding call_plugin load_plugin get get_elem? dragonfly_wasm.Prelude.put
    dragonfly_wasm.Runtime.Instance.call
called-run = refl

with_chat-Reach : Reach env create empty with_chat
with_chat-Reach = next here (loads empty "chat" "chat.toml" settings "chat.wasm" 0)

Reach-IsTable_example : IsTable with_chat
Reach-IsTable_example = Reach-IsTable env create with_chat-Reach

with_chat-IsTable : IsTable with_chat
with_chat-IsTable = Reach-IsTable env create with_chat-Reach

close-unloads_example :
    ((k : String) → get (close env with_chat 5).0.instances k ≡ none)
    × ((a : ℕ) (p : PluginInstance String String)
        → get_elem? (close env with_chat 5).0.heap a ≡ some p
        → is_state_unloaded p.state ≡ true)
close-unloads_example = close-unloads env with_chat 5 with_chat-IsTable

chat-found : get_instance "chat" with_chat ≡ some 0
unfolding load_plugin get dragonfly_wasm.Prelude.put
chat-found = refl

-- The plugin is unloaded, and then loaded again.
abbrev again : Runtime String String
again =
    (load_plugin env create (unload_plugin env "chat" with_chat 5).1 "chat" "chat.toml" []
      "chat.wasm" 6).1

unload-silences_example :
    let out = call_pointed env 0 (get_elem? again.heap 0) "handle_event" [] (pos 9) again 8 in
    (out.0 ≡ not_enabled) × (out.2 ≡ 8)
unload-silences_example =
    unload-silences env create 0 "chat" with_chat 5 again 8 "handle_event" [] (pos 9)
      with_chat-IsTable chat-found
      (next here
        (loads (unload_plugin env "chat" with_chat 5).1 "chat" "chat.toml" [] "chat.wasm" 6))
