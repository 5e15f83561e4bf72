-- ===== src/Manager/Lifecycle/Operations.antt =====
-- internal/manager/manager.go: the operations on a manager with loaded plugins, and a dispatch
-- through its dispatcher.
use dragonfly_wasm.Prelude.{
  ℕ, String, true, not, ◌&&◌, Option, none, some, List, [], ◌∷◌, str_eq, select, if◌then◌else◌,
  GoMap, get, delete,
}
use dragonfly_wasm.Prelude.Int.{ℤ}
use dragonfly_wasm.Prelude.Heap.{get_elem?, set_elem}
use dragonfly_wasm.Plugin.Manifest.{EventType}
use dragonfly_wasm.Plugin.State.{
  State, enabling, enabled, disabling, disabled, error, unloaded, is_enabled, is_loaded,
  is_disabled,
}
use dragonfly_wasm.Plugin.Metrics.{record_error}
use dragonfly_wasm.Events.{DispatchResult, unsubscribe, dispatch}
use dragonfly_wasm.Manager.Wasm.{Wasm}
use dragonfly_wasm.Manager.Lifecycle.{LoadedPlugin, Manager}
use dragonfly_wasm.Manager.Lifecycle.Handling.{handle}

pub data PluginError : Type 0 where
  not_found : (id : String) → PluginError
  cannot_enable : (id : String) (state : State) → PluginError
  enable_failed : (err : String) → PluginError

-- slices.Reverse, onto a list.
abbrev pub reversed : List String → List String → List String
reversed [] behind = behind
reversed (x ∷ xs) behind = reversed xs (x ∷ behind)

module _ {I : Type 0} where
  abbrev pub pointed : ℕ → Option (LoadedPlugin I) → Option (ℕ × LoadedPlugin I)
  pointed a none = none
  pointed a (some p) = some (a, p)

  abbrev pub pointer : List (LoadedPlugin I) → Option ℕ → Option (ℕ × LoadedPlugin I)
  pointer heap none = none
  pointer heap (some a) = pointed a (get_elem? heap a)

  -- m.plugins[id], as the address and what it points to.
  unfoldable pub find_plugin : Manager I → String → Option (ℕ × LoadedPlugin I)
  find_plugin m id = pointer m.heap (get m.plugins id)

  abbrev pub store_plugin : Manager I → ℕ → LoadedPlugin I → Manager I
  store_plugin m a p = record m { heap = set_elem m.heap a p }

  abbrev pub with_state : LoadedPlugin I → State → LoadedPlugin I
  with_state p state = record { info = record p.info { state = state }; instance = p.instance }

module _ {I W : Type 0} (env : Wasm I W) where
  unfoldable pub enable_done :
      Manager I → ℕ → LoadedPlugin I → W → Option PluginError × Manager I × W
  enable_done m a p w =
      let (time, w') = env.now w in
      let p' : LoadedPlugin I = record {
        info = record p.info { state = enabled; enabled_at = time };
        instance = p.instance;
      } in
      (none, store_plugin m a p', w')

  unfoldable pub enable_called :
      Manager I → ℕ → LoadedPlugin I → Option String → W → Option PluginError × Manager I × W
  unfolding enable_done
  enable_called m a p none w = enable_done m a p w
  enable_called m a p (some err) w =
      let (time, w') = env.now w in
      let p' : LoadedPlugin I = record {
        info = record p.info { state = error; metrics = record_error p.info.metrics err time };
        instance = p.instance;
      } in
      (some (enable_failed err), store_plugin m a p', w')

  unfoldable pub enable_found :
      Manager I → String → ℕ → LoadedPlugin I → W → Option PluginError × Manager I × W
  unfolding enable_called
  enable_found m id a p w =
      let p' = with_state p enabling in
      if is_enabled p.info.state
      then (none, m, w)
      else if not (is_loaded p.info.state) && not (is_disabled p.info.state)
      then (some (cannot_enable id p.info.state), m, w)
      else if env.function_exists p.instance "on_enable"
      then (let (r, w') = env.call p.instance "on_enable" [] w in enable_called m a p' r.err w')
      else enable_done m a p' w

  unfoldable pub enable_entry :
      Manager I → String → Option (ℕ × LoadedPlugin I) → W → Option PluginError × Manager I × W
  unfolding enable_found
  enable_entry m id none w = (some (not_found id), m, w)
  enable_entry m id (some (a, p)) w = enable_found m id a p w

  unfoldable pub enable_plugin : Manager I → String → W → Option PluginError × Manager I × W
  unfolding enable_entry
  enable_plugin m id w = enable_entry m id (find_plugin m id) w

  unfoldable pub disable_done :
      Manager I → ℕ → LoadedPlugin I → W → Option PluginError × Manager I × W
  disable_done m a p w =
      let (time, w') = env.now w in
      let p' : LoadedPlugin I = record {
        info = record p.info { state = disabled; disabled_at = time };
        instance = p.instance;
      } in
      (none, store_plugin m a p', w')

  unfoldable pub disable_found :
      Manager I → ℕ → LoadedPlugin I → W → Option PluginError × Manager I × W
  unfolding disable_done
  disable_found m a p w =
      let p' = with_state p disabling in
      if not (is_enabled p.info.state)
      then (none, m, w)
      else if env.function_exists p.instance "on_disable"
      then disable_done m a p' (env.call p.instance "on_disable" [] w).1
      else disable_done m a p' w

  unfoldable pub disable_entry :
      Manager I → String → Option (ℕ × LoadedPlugin I) → W → Option PluginError × Manager I × W
  unfolding disable_found
  disable_entry m id none w = (some (not_found id), m, w)
  disable_entry m id (some (a, p)) w = disable_found m a p w

  unfoldable pub disable_plugin : Manager I → String → W → Option PluginError × Manager I × W
  unfolding disable_entry
  disable_plugin m id w = disable_entry m id (find_plugin m id) w

  -- Behind the disabling; the pointer is the one found first.
  unfoldable pub unload_found : Manager I → String → ℕ → LoadedPlugin I → W → Manager I × W
  unload_found m id a p w = (
    record m {
      dispatcher = unsubscribe m.dispatcher id;
      heap = set_elem m.heap a (with_state p unloaded);
      plugins = delete m.plugins id;
      load_order = select (λ s. not (str_eq s id)) m.load_order;
    },
    env.close p.instance w,
  )

  unfoldable pub unload_pointed :
      Manager I → String → ℕ → Option (LoadedPlugin I) → W → Option PluginError × Manager I × W
  unfolding unload_found
  unload_pointed m id a none w = (none, m, w)
  unload_pointed m id a (some p) w = let (m', w') = unload_found m id a p w in (none, m', w')

  unfoldable pub unload_now : Manager I → String → ℕ → W → Option PluginError × Manager I × W
  unfolding unload_pointed
  unload_now m id a w = unload_pointed m id a (get_elem? m.heap a) w

  unfoldable pub unload_disabled :
      String → ℕ → Option PluginError × Manager I × W → Option PluginError × Manager I × W
  unfolding unload_now
  unload_disabled id a (some err, m, w) = (some err, m, w)
  unload_disabled id a (none, m, w) = unload_now m id a w

  unfoldable pub unload_entry :
      Manager I → String → Option (ℕ × LoadedPlugin I) → W → Option PluginError × Manager I × W
  unfolding unload_disabled
  unload_entry m id none w = (some (not_found id), m, w)
  unload_entry m id (some (a, p)) w =
      if is_enabled p.info.state
      then unload_disabled id a (disable_plugin m id w)
      else unload_now m id a w

  unfoldable pub unload_plugin : Manager I → String → W → Option PluginError × Manager I × W
  unfolding unload_entry
  unload_plugin m id w = unload_entry m id (find_plugin m id) w

  -- The loop of `EnableAll`; errors are logged only.
  unfoldable pub enable_each : List String → Manager I × W → Manager I × W
  enable_each [] s = s
  enable_each (id ∷ ids) (m, w) = let (_, m', w') = enable_plugin m id w in enable_each ids (m', w')

  unfoldable pub enable_all : Manager I → W → Manager I × W
  enable_all m w = enable_each m.load_order (m, w)

  unfoldable pub disable_each : List String → Manager I × W → Manager I × W
  disable_each [] s = s
  disable_each (id ∷ ids) (m, w) =
      let (_, m', w') = disable_plugin m id w in disable_each ids (m', w')

  unfoldable pub disable_all : Manager I → W → Manager I × W
  disable_all m w = disable_each (reversed m.load_order []) (m, w)

  -- The loop of `Close`, which closes every instance.
  close_each : GoMap ℕ → List (LoadedPlugin I) → W → W
  close_each [] heap w = w
  close_each ((id, a) ∷ plugins) heap w = elim (get_elem? heap a) [
    | none ↦ close_each plugins heap w
    | some p ↦ close_each plugins heap (env.close p.instance w)
  ]

  unfoldable pub close : Manager I → W → Manager I × W
  unfolding close_each
  close m w =
      let (m', w') = disable_all (record m { cancelled = true }) w in
      (record m' { plugins = [] }, close_each m'.plugins m'.heap w')

  -- m.Dispatcher().Dispatch with the handlers of the manager.
  unfoldable pub dispatch_event :
      Manager I → EventType → List ℕ → ℤ → W → DispatchResult × Manager I × W
  dispatch_event m event serialized elapsed w =
      let (r, d, (heap, w')) =
        dispatch (handle env m.config) m.dispatcher event serialized elapsed (m.heap, w) in
      (r, record m { dispatcher = d; heap = heap }, w')

-- The address of a plugin; a missing entry of the map gives a nil pointer.
unfoldable pub get_all_plugins : {I : Type 0} → Manager I → List (Option ℕ)
get_all_plugins m = addresses m.load_order
  where
    addresses : List String → List (Option ℕ)
    addresses [] = []
    addresses (id ∷ ids) = get m.plugins id ∷ addresses ids
