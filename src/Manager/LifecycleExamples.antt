-- ===== src/Manager/LifecycleExamples.antt =====
-- Runs of the operations on plugins, and the theorems about them at concrete inputs.
use dragonfly_wasm.Prelude.{
  ℕ, ◌+◌, String, ◌≡◌, refl, ◌⊎◌, Bool, true, false, Option, none, some, List, [], ◌∷◌, GoMap, get,
  is_some,
}
use dragonfly_wasm.Prelude.Int.{pos}
use dragonfly_wasm.Prelude.Sorting.{Sorter, insertion_sorter}
use dragonfly_wasm.Prelude.Heap.{get_elem?}
use dragonfly_wasm.Config.{default_config}
use dragonfly_wasm.Plugin.Version.{Version}
use dragonfly_wasm.Plugin.Manifest.{Manifest, default_resource_limits}
use dragonfly_wasm.Plugin.Metrics.{new_metrics}
use dragonfly_wasm.Plugin.State.{loaded, enabled}
use dragonfly_wasm.Events.{Subscription, returned}
use dragonfly_wasm.Manager.Wasm.{Wasm, created, result}
use dragonfly_wasm.Manager.Lifecycle.{
  LoadedPlugin, Manager, Handler, LoadError, new_manager, load_plugin, load_ready,
}
use dragonfly_wasm.Manager.Lifecycle.Handling.{handle}
use dragonfly_wasm.Manager.Lifecycle.Operations.{
  enable_plugin, disable_plugin, unload_plugin, close, dispatch_event, get_all_plugins,
}
use dragonfly_wasm.Manager.Lifecycle.Consistent.{IsConsistent}
use dragonfly_wasm.Manager.Lifecycle.Adding.{CanLoad, Added}
use dragonfly_wasm.Manager.Lifecycle.Loading.{load_plugin_end}
use dragonfly_wasm.Manager.Lifecycle.Switching.{EnableEnd, enable_plugin_ends}
use dragonfly_wasm.Manager.Lifecycle.Unloading.{Unloaded, unload_plugin_removes}
use dragonfly_wasm.Manager.Lifecycle.Reachable.{
  Reach, here, next, loads, enables, dispatches, Reach-IsConsistent,
}
use dragonfly_wasm.Manager.Lifecycle.Silence.{IsOff, close_disables, disable_plugin_silences}

-- Instances are the paths of their files, and the world is a clock that every call moves on.
-- Handlers cancel the event.
abbrev pub env : Wasm String ℕ
env = record {
  mkdir_all = λ path w. (none, w);
  new_plugin = λ path pages w. (created path, w + 1);
  function_exists = λ i name. true;
  call = λ i name input w. (record { output = []; err = none }, w + 1);
  call_within = λ timeout i name input w. (result (record { output = 1 ∷ []; err = none }), w + 1);
  close = λ i w. w + 1;
  now = λ w. (pos w, w);
  since = λ start w. (pos 1, w);
  expired = λ timeout w. false;
  join = λ path name. name;
}

abbrev one : Version
one = record { major = pos 1; minor = pos 0; patch = pos 0 }

abbrev pub greeter : Manifest
greeter = record {
  id = "com.example";
  name = "Greeter";
  version = one;
  description = "";
  authors = [];
  website = "";
  license = "";
  api_version = one;
  entry_point = "plugin.wasm";
  events = record { event = "player_join"; priority = pos 0; ignore_cancelled = false } ∷ [];
  dependencies = [];
  limits = default_resource_limits;
  load_before = [];
  load_after = [];
}

abbrev pub sorter : Sorter (Subscription Handler)
sorter = insertion_sorter

abbrev pub empty : Manager String
empty = new_manager default_config

abbrev loaded_manager : Manager String
loaded_manager = (load_plugin env sorter greeter empty "plugins/greeter" 0).1

abbrev pub enabled_manager : Manager String
enabled_manager = (enable_plugin env loaded_manager "com.example" 5).1

abbrev loaded_greeter : LoadedPlugin String
loaded_greeter = record {
  info = record {
    manifest = greeter;
    state = loaded;
    metrics = new_metrics;
    loaded_at = pos 0;
    enabled_at = pos 0;
    disabled_at = pos 0;
    data_path = "com.example";
    wasm_path = "plugin.wasm";
  };
  instance = "plugin.wasm";
}

abbrev enabled_greeter : LoadedPlugin String
enabled_greeter = record {
  info = record loaded_greeter.info { state = enabled; enabled_at = pos 6 };
  instance = "plugin.wasm";
}

loaded-run : loaded_manager.heap ≡ loaded_greeter ∷ []
unfolding load_plugin get
loaded-run = refl

loaded-found : get loaded_manager.plugins "com.example" ≡ some 0
unfolding load_plugin load_ready get dragonfly_wasm.Prelude.put
loaded-found = refl

loaded-at : get_elem? loaded_manager.heap 0 ≡ some loaded_greeter
unfolding load_plugin get_elem? get
loaded-at = refl

enabled-found : get enabled_manager.plugins "com.example" ≡ some 0
unfolding load_plugin load_ready get dragonfly_wasm.Prelude.put get_elem? enable_plugin
    dragonfly_wasm.Manager.Lifecycle.Operations.find_plugin
enabled-found = refl

enabled-at : get_elem? enabled_manager.heap 0 ≡ some enabled_greeter
unfolding load_plugin load_ready get dragonfly_wasm.Prelude.put get_elem?
    dragonfly_wasm.Prelude.Heap.set_elem enable_plugin
    dragonfly_wasm.Manager.Lifecycle.Operations.find_plugin
enabled-at = refl

load_plugin_end_example :
    let out = load_plugin env sorter greeter empty "plugins/greeter" 0 in
    ((err : LoadError) × (out.0 ≡ some err)
      × (out.1 ≡ empty)
      × ((i : String) → CanLoad env greeter empty "plugins/greeter" 0 i → ⊥))
    ⊎ ((instance : String) × (out.0 ≡ none)
        × CanLoad env greeter empty "plugins/greeter" 0 instance
        × Added env greeter empty "plugins/greeter" 0 instance out.1)
load_plugin_end_example = load_plugin_end env sorter greeter empty "plugins/greeter" 0

enable_plugin_ends_example :
    EnableEnd env loaded_manager "com.example" 0 loaded_greeter 5
      (enable_plugin env loaded_manager "com.example" 5)
enable_plugin_ends_example =
    enable_plugin_ends env loaded_manager "com.example" 0 loaded_greeter 5 loaded-found loaded-at

disable_plugin_silences_example :
    let (_, m', w') = disable_plugin env enabled_manager "com.example" 7 in
    handle env default_config (record { plugin = 0; event = "player_join" }) [] (m'.heap, w')
    ≡ (returned none, (m'.heap, w'))
disable_plugin_silences_example =
    disable_plugin_silences env default_config enabled_manager "com.example" 0 enabled_greeter
      enabled-at refl 7 "player_join" [] enabled-found

Reach-IsConsistent_example :
    IsConsistent (dispatch_event env enabled_manager "player_join" [] (pos 1) 7).1
Reach-IsConsistent_example = Reach-IsConsistent env (
    next
      (next (next here (loads empty greeter "plugins/greeter" 0))
        (enables loaded_manager "com.example" 5))
      (dispatches enabled_manager "player_join" [] (pos 1) 7))

enabled-Reach : Reach env sorter empty enabled_manager
enabled-Reach =
    next (next here (loads empty greeter "plugins/greeter" 0))
      (enables loaded_manager "com.example" 5)

enabled-IsConsistent : IsConsistent enabled_manager
enabled-IsConsistent = Reach-IsConsistent env enabled-Reach

unload_plugin_removes_example :
    ((unload_plugin env enabled_manager "com.example" 7).0 ≡ none)
    × Unloaded enabled_manager (unload_plugin env enabled_manager "com.example" 7).1 "com.example" 0
    × IsConsistent (unload_plugin env enabled_manager "com.example" 7).1
unload_plugin_removes_example =
    unload_plugin_removes env "com.example" 0 enabled_manager 7 enabled-IsConsistent enabled-found

close_disables_example :
    ((close env enabled_manager 7).0.plugins ≡ []) × IsOff (close env enabled_manager 7).0 0
close_disables_example =
    close_disables env "com.example" 0 enabled_manager 7 enabled-IsConsistent enabled-found

-- Behind `Close`, the load order still names the plugins: their pointers are nil.
closed-order : get_all_plugins (close env loaded_manager 7).0 ≡ none ∷ []
unfolding get_all_plugins close load_plugin load_ready get dragonfly_wasm.Prelude.put get_elem?
    dragonfly_wasm.Manager.Lifecycle.Operations.find_plugin
    dragonfly_wasm.Manager.Lifecycle.Operations.disable_all
    dragonfly_wasm.Manager.Lifecycle.Operations.disable_each disable_plugin
closed-order = refl
