-- ===== src/Manager/Lifecycle.antt =====
-- internal/manager/manager.go: loading, enabling, disabling and unloading of plugins, and the event
-- handlers. Plugins are shared by pointers, which are addresses of a heap. Operations run one after
-- the other, as the locks order them; logging is left out.
pub mod Handling
pub mod Operations
pub mod Consistent
pub mod Adding
pub mod Loading
pub mod Switching
pub mod Unloading
pub mod Reachable
pub mod Silence
use Prim.Native.String.{◌++◌ as string_append}
use dragonfly_wasm.Prelude.{
  ℕ, ◌*◌, ◌^◌, String, Bool, true, false, not, ◌&&◌, ◌||◌, Option, none, some, List, [], ◌∷◌, ◌++◌,
  ◌==◌, length, if◌then◌else◌, GoMap, get, put, is_some,
}
use dragonfly_wasm.Prelude.Int.{ℤ, pos, ◌*ℤ◌, wrap_int}
use dragonfly_wasm.Prelude.Sorting.{Sorter}
use dragonfly_wasm.Prelude.Heap.{get_elem?, set_elem}
use dragonfly_wasm.Prelude.Bytes.{bytes}
use dragonfly_wasm.Config.{Config, get_effective_limits, max_pages}
use dragonfly_wasm.Plugin.Manifest.{Manifest, EventSubscription, EventType, ResourceLimits}
use dragonfly_wasm.Plugin.State.{State, loading, loaded, is_enabled, is_loaded}
use dragonfly_wasm.Plugin.Info.{Info, new_info}
use dragonfly_wasm.Plugin.Metrics.{Metrics, record_call, record_error, record_event}
use dragonfly_wasm.Events.{
  Dispatcher, Subscription, EventResult, HandlerReturn, returned, failed, subscribe, new_dispatcher,
}
use dragonfly_wasm.Manager.Wasm.{Wasm, Created, created, refused, CallResult, Answer, done, result}

pub record LoadedPlugin (I : Type 0) : Type 0 where
  pub info : Info
  pub instance : I

-- The closure of `createEventHandler`: the pointer to its plugin, and its event type.
pub record Handler : Type 0 where
  pub plugin : ℕ
  pub event : EventType

pub record Manager (I : Type 0) : Type 0 where
  pub config : Config
  pub dispatcher : Dispatcher Handler
  pub plugins : GoMap ℕ
  pub load_order : List String
  pub heap : List (LoadedPlugin I)
  pub cancelled : Bool

pub data LoadError : Type 0 where
  already_loaded : (id : String) → LoadError
  data_directory create_instance : (err : String) → LoadError
  missing_export : (name : String) → LoadError
  init_timed_out : LoadError
  init_failed : (err : String) → LoadError

abbrev pub new_manager : {I : Type 0} → Config → Manager I
new_manager cfg = record {
  config = cfg;
  dispatcher = new_dispatcher;
  plugins = [];
  load_order = [];
  heap = [];
  cancelled = false;
}

-- The loop of `registerEventHandlers`.
unfoldable pub register_event_handlers :
    Sorter (Subscription Handler)
    → ℕ
    → String
    → List EventSubscription
    → Dispatcher Handler
    → Dispatcher Handler
register_event_handlers sorter plugin id [] d = d
register_event_handlers sorter plugin id (sub ∷ subs) d =
    register_event_handlers sorter plugin id subs (
      subscribe sorter d sub.event (record {
        plugin_id = id;
        priority = sub.priority;
        handler = record { plugin = plugin; event = sub.event };
        ignore_cancelled = sub.ignore_cancelled;
      }))

-- time.Duration(ms) * time.Millisecond
abbrev pub milliseconds : ℤ → ℤ
milliseconds ms = wrap_int (ms *ℤ pos 1_000_000)

module _ {I W : Type 0} (env : Wasm I W) where
  module _ (sorter : Sorter (Subscription Handler)) (manifest : Manifest) (m : Manager I) where
    -- The plugin behind a `plugin_init` that succeeded.
    unfoldable pub load_ready : Info → I → Manager I
    unfolding register_event_handlers
    load_ready info instance =
        let plugin = length m.heap in
        record m {
          heap =
              m.heap ++ record { info = record info { state = loaded }; instance = instance } ∷ [];
          plugins = put m.plugins manifest.id plugin;
          load_order = m.load_order ++ manifest.id ∷ [];
          dispatcher =
              register_event_handlers sorter plugin manifest.id info.manifest.events m.dispatcher;
        }

    load_initialised :
        ResourceLimits → Info → I → Option String → W → Option LoadError × Manager I × W
    unfolding load_ready
    load_initialised limits info instance none w = (none, load_ready info instance, w)
    load_initialised limits info instance (some err) w =
        let w' = env.close instance w in
        let timeout = wrap_int (milliseconds limits.max_execution_ms *ℤ pos 10) in
        (some (if env.expired timeout w' then init_timed_out else init_failed err), m, w')

    load_created : ResourceLimits → Info → Created I → W → Option LoadError × Manager I × W
    unfolding load_initialised
    load_created limits info (refused err) w = (some (create_instance err), m, w)
    load_created limits info (created instance) w =
        if not (env.function_exists instance "plugin_init")
        then (some (missing_export "plugin_init"), m, env.close instance w)
        else if not (env.function_exists instance "handle_event")
        then (some (missing_export "handle_event"), m, env.close instance w)
        else (let (r, w') = env.call instance "plugin_init" [] w in
            load_initialised limits info instance r.err w')

    load_directory : String → String → Option String → W → Option LoadError × Manager I × W
    unfolding load_created
    load_directory wasm_path data_path (some err) w = (some (data_directory err), m, w)
    load_directory wasm_path data_path none w =
        let (time, w1) = env.now w in
        let info = record (new_info manifest wasm_path data_path) {
          state = loading;
          loaded_at = time;
        } in
        let limits = get_effective_limits m.config manifest.limits in
        let (c, w2) = env.new_plugin wasm_path (max_pages limits) w1 in
        load_created limits info c w2

    unfoldable pub load_plugin : String → W → Option LoadError × Manager I × W
    unfolding load_directory
    load_plugin plugin_path w =
        let data_path = env.join m.config.data_dir manifest.id in
        let (made, w') = env.mkdir_all data_path w in
        if is_some (get m.plugins manifest.id)
        then (some (already_loaded manifest.id), m, w)
        else load_directory (env.join plugin_path manifest.entry_point) data_path made w'
