-- ===== src/Runtime/Table.antt =====
-- internal/runtime/runtime.go: `Runtime`, the table of the plugin instances. Instances are shared by
-- pointers, which are addresses of a heap. `M` is the type of the manifests without their `Config`,
-- and `create` is `extism.NewPlugin` of a file with a page limit and configuration texts.
pub mod Consistent
pub mod Steps
pub mod Closing
pub mod Handles
mod Examples
use dragonfly_wasm.Prelude.{
  ℕ, ◌%◌, ◌^◌, String, Bool, true, false, not, Option, none, some, List, [], ◌∷◌, ◌++◌, length,
  if◌then◌else◌, GoMap, get, put, delete, is_some,
}
use dragonfly_wasm.Prelude.Int.{ℤ, pos, quot_ℤ, to_word}
use dragonfly_wasm.Prelude.Heap.{get_elem?, set_elem}
use dragonfly_wasm.Config.{RuntimeConfig}
use dragonfly_wasm.Manager.Wasm.{Wasm, Created, created, refused}
use dragonfly_wasm.Runtime.Instance.{
  PluginState, PluginInstance, Outcome, not_enabled, new_plugin_metrics, loaded, unloaded, call,
}

pub record Runtime (I M : Type 0) : Type 0 where
  pub config : RuntimeConfig
  pub instances : GoMap ℕ
  pub heap : List (PluginInstance I M)

abbrev pub new_runtime : {I M : Type 0} → RuntimeConfig → Runtime I M
new_runtime cfg = record { config = cfg; instances = []; heap = [] }

-- A value of a manifest's `Config`, of type `any`.
pub data ConfigValue : Type 0 where
  text : String → ConfigValue
  other : ConfigValue

-- s == StateUnloaded
abbrev pub is_state_unloaded : PluginState → Bool
is_state_unloaded unloaded = true
is_state_unloaded _ = false

-- The loop that fills `configStrings`.
unfoldable pub config_strings : GoMap ConfigValue → GoMap String → GoMap String
config_strings [] strings = strings
config_strings ((k, text s) ∷ config) strings = config_strings config (put strings k s)
config_strings ((k, other) ∷ config) strings = config_strings config strings

-- uint32(b / 65536)
abbrev pub memory_pages : ℤ → ℕ
memory_pages b = to_word (quot_ℤ b (pos 65536)) % 2 ^ 32

-- The two results of `LoadPlugin`: the pointer to the instance, or a `PluginError`.
pub data LoadResult : Type 0 where
  at : ℕ → LoadResult
  already_loaded : LoadResult
  create_failed missing_export : (detail : String) → LoadResult

abbrev pub Create : Type 0 → Type 0 → Type 0
Create I W = String → ℕ → GoMap String → W → Created I × W

module _ {I W : Type 0} (env : Wasm I W) where
  -- The first export that is missing.
  unfoldable pub missing_in : I → List String → Option String
  missing_in plugin [] = none
  missing_in plugin (export ∷ exports) =
      if not (env.function_exists plugin export) then some export else missing_in plugin exports

  abbrev pub verify_exports : I → Option String
  unfolding missing_in
  verify_exports plugin = missing_in plugin ("plugin_init" ∷ "handle_event" ∷ [])

abbrev pub get_instance : {I M : Type 0} → String → Runtime I M → Option ℕ
get_instance id r = get r.instances id

-- `Enable` or `Disable` of the instance behind a pointer.
unfoldable pub switch_pointed :
    {I M : Type 0}
    → ℕ
    → (PluginInstance I M → PluginInstance I M)
    → Option (PluginInstance I M)
    → Runtime I M
    → Runtime I M
switch_pointed a switch none r = r
switch_pointed a switch (some p) r = record r { heap = set_elem r.heap a (switch p) }

module _ {I M W : Type 0} (env : Wasm I W) where
  unfoldable pub load_ready : Runtime I M → String → M → I → W → LoadResult × Runtime I M × W
  load_ready r id manifest plugin w =
      let (time, w') = env.now w in
      let instance : PluginInstance I M = record {
        id = id;
        manifest = manifest;
        plugin = plugin;
        state = loaded;
        loaded_at = time;
        metrics = new_plugin_metrics;
      } in
      (
        at (length r.heap),
        record r { instances = put r.instances id (length r.heap); heap = r.heap ++ instance ∷ [] },
        w',
      )

  unfoldable pub load_verified :
      Runtime I M → String → M → I → Option String → W → LoadResult × Runtime I M × W
  unfolding load_ready
  load_verified r id manifest plugin none w = load_ready r id manifest plugin w
  load_verified r id manifest plugin (some export) w =
      (missing_export export, r, env.close plugin w)

  unfoldable pub load_created :
      Runtime I M → String → M → Created I × W → LoadResult × Runtime I M × W
  unfolding load_verified missing_in
  load_created r id manifest (refused e, w) = (create_failed e, r, w)
  load_created r id manifest (created plugin, w) =
      load_verified r id manifest plugin (verify_exports env plugin) w

  unfoldable pub load_plugin :
      Create I W
      → Runtime I M
      → String
      → M
      → GoMap ConfigValue
      → String
      → W
      → LoadResult × Runtime I M × W
  unfolding load_created config_strings
  load_plugin create r id manifest config wasm_path w =
      if is_some (get r.instances id)
      then (already_loaded, r, w)
      else load_created r id manifest
          (create wasm_path (memory_pages r.config.max_memory_bytes) (config_strings config []) w)

  -- instance.Plugin.Close(); instance.State = StateUnloaded
  unfoldable pub shut : ℕ → Option (PluginInstance I M) → Runtime I M → W → Runtime I M × W
  shut a none r w = (r, w)
  shut a (some p) r w =
      (record r { heap = set_elem r.heap a (record p { state = unloaded }) }, env.close p.plugin w)

  unfoldable pub unload_found :
      String → Option ℕ → Runtime I M → W → Option String × Runtime I M × W
  unfolding shut
  unload_found id none r w = (some "not found", r, w)
  unload_found id (some a) r w =
      let (r', w') = shut a (get_elem? r.heap a) r w in
      (none, record r' { instances = delete r'.instances id }, w')

  -- The error, if any, is the one of an ID that is not there.
  unfoldable pub unload_plugin : String → Runtime I M → W → Option String × Runtime I M × W
  unfolding unload_found
  unload_plugin id r w = unload_found id (get r.instances id) r w

  -- A method of the instance behind a pointer.
  unfoldable pub put_called :
      ℕ → Runtime I M → Outcome × PluginInstance I M × W → Outcome × Runtime I M × W
  put_called a r (o, p, w) = (o, record r { heap = set_elem r.heap a p }, w)

  unfoldable pub call_pointed :
      ℕ
      → Option (PluginInstance I M)
      → String
      → List ℕ
      → ℤ
      → Runtime I M
      → W
      → Outcome × Runtime I M × W
  unfolding put_called
  call_pointed a none function input timeout r w = (not_enabled, r, w)
  call_pointed a (some p) function input timeout r w =
      put_called a r (call env p function input timeout w)

  -- The two results of `CallPlugin`; `none` is the error of an ID that is not there.
  unfoldable pub call_found :
      Option ℕ → String → List ℕ → Runtime I M → W → Option Outcome × Runtime I M × W
  unfolding call_pointed
  call_found none function input r w = (none, r, w)
  call_found (some a) function input r w =
      let (o, r', w') =
        call_pointed a (get_elem? r.heap a) function input r.config.event_timeout r w in
      (some o, r', w')

  unfoldable pub call_plugin :
      String → String → List ℕ → Runtime I M → W → Option Outcome × Runtime I M × W
  unfolding call_found
  call_plugin id function input r w = call_found (get_instance id r) function input r w

  -- The loop of `Close` over the table.
  unfoldable pub close_each : GoMap ℕ → Runtime I M → W → Runtime I M × W
  unfolding shut
  close_each [] r w = (r, w)
  close_each ((id, a) ∷ rest) r w =
      let (r', w') = shut a (get_elem? r.heap a) r w in
      close_each rest (record r' { instances = delete r'.instances id }) w'

  unfoldable pub close : Runtime I M → W → Runtime I M × W
  unfolding close_each
  close r w = close_each r.instances r w
