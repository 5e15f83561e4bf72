-- ===== src/Manager/Lifecycle/Reachable.antt =====
-- Managers after any sequence of operations.
use dragonfly_wasm.Prelude.{
  ℕ, String, ◌≡◌, refl, sym, ap, subst, inl, inr, not, ◌&&◌, Option, none, some, List, [], ◌∷◌, get,
  contains, value_or, Bool-cases,
}
use dragonfly_wasm.Prelude.Int.{ℤ}
use dragonfly_wasm.Prelude.Sorting.{Sorter}
use dragonfly_wasm.Prelude.Heap.{get_elem?, set_elem}
use dragonfly_wasm.Config.{Config}
use dragonfly_wasm.Plugin.Manifest.{Manifest, EventType}
use dragonfly_wasm.Plugin.State.{is_enabled, is_loaded}
use dragonfly_wasm.Plugin.Metrics.{Metrics}
use dragonfly_wasm.Events.{Subscription}
use dragonfly_wasm.Events.Counters.{dispatch_counts}
use dragonfly_wasm.Events.Worlds.{dispatch_keeps}
use dragonfly_wasm.Manager.Wasm.{Wasm, CallResult, Answer, done, result}
use dragonfly_wasm.Manager.Lifecycle.{LoadedPlugin, Manager, Handler, load_plugin, new_manager}
use dragonfly_wasm.Manager.Lifecycle.Handling.{
  Store, with_metrics, handled, ended, answered, run_handler, handle_pointed, handle,
}
use dragonfly_wasm.Manager.Lifecycle.Operations.{
  enable_plugin, disable_plugin, unload_plugin, enable_each, disable_each, enable_all, disable_all,
  reversed, dispatch_event,
}
use dragonfly_wasm.Manager.Lifecycle.Consistent.{
  IsConsistent, Keeps, Keeps-set_elem, Keeps-IsConsistent,
}
use dragonfly_wasm.Manager.Lifecycle.Loading.{load_plugin-IsConsistent}
use dragonfly_wasm.Manager.Lifecycle.Switching.{
  found_cases, enable_plugin-IsConsistent, disable_plugin-IsConsistent,
}
use dragonfly_wasm.Manager.Lifecycle.Unloading.{unload_plugin_removes, unload_plugin_missing}

module _ {I W : Type 0} (env : Wasm I W) (config : Config) where
  with_metrics-Keeps :
      (heap : List (LoadedPlugin I)) (a : ℕ) (p : LoadedPlugin I) (metrics : Metrics)
      → get_elem? heap a ≡ some p
      → Keeps heap (set_elem heap a (with_metrics p metrics))
  with_metrics-Keeps heap a p metrics at =
      Keeps-set_elem heap a p (with_metrics p metrics) at refl (λ h. h)

  module _ (h : Handler) (p : LoadedPlugin I) (heap : List (LoadedPlugin I))
      (at : get_elem? heap h.plugin ≡ some p) where
    ended-Keeps :
        (metrics : Metrics) (r : CallResult) (err : Option String) (w : W)
        → Keeps heap (ended env config h p metrics r err (heap, w)).1.0
    unfolding ended handled
    ended-Keeps metrics r none w = with_metrics-Keeps heap h.plugin p _ at
    ended-Keeps metrics r (some err) w = with_metrics-Keeps heap h.plugin p _ at

    answered-Keeps :
        (start : ℤ) (answer : Answer) (w : W)
        → Keeps heap (answered env config h p start answer (heap, w)).1.0
    unfolding answered
    answered-Keeps start (done err) w = with_metrics-Keeps heap h.plugin p _ at
    answered-Keeps start (result r) w = ended-Keeps _ r r.err _

    run_handler-Keeps :
        (bytes : List ℕ) (w : W) → Keeps heap (run_handler env config h p bytes (heap, w)).1.0
    unfolding run_handler
    run_handler-Keeps bytes w = answered-Keeps _ _ _

  handle_pointed-Keeps :
      (h : Handler) (bytes : List ℕ) (heap : List (LoadedPlugin I)) (w : W)
      (o : Option (LoadedPlugin I))
      → get_elem? heap h.plugin ≡ o
      → Keeps heap (handle_pointed env config h bytes o (heap, w)).1.0
  unfolding handle_pointed
  handle_pointed-Keeps h bytes heap w none e = λ id a s. s
  handle_pointed-Keeps h bytes heap w (some p) e =
      elim (Bool-cases (not (is_enabled p.info.state) && not (is_loaded p.info.state))) [
        | inl t ↦ rw t (λ id a s. s)
        | inr f ↦ rw f (run_handler-Keeps h p heap e bytes w)
      ]

  handle-Keeps :
      (h : Handler) (bytes : List ℕ) (s : Store I W) → Keeps s.0 (handle env config h bytes s).1.0
  unfolding handle
  handle-Keeps h bytes (heap, w) =
      handle_pointed-Keeps h bytes heap w (get_elem? heap h.plugin) refl

module _ {I W : Type 0} (env : Wasm I W) where
  dispatch_event-IsConsistent :
      (m : Manager I) (event : EventType) (serialized : List ℕ) (elapsed : ℤ) (w : W)
      → IsConsistent m
      → IsConsistent (dispatch_event env m event serialized elapsed w).1
  unfolding dispatch_event
  dispatch_event-IsConsistent m event serialized elapsed w v =
      Keeps-IsConsistent m _ refl refl
        (λ e.
          ap (λ subs. value_or (get subs e) [])
            (dispatch_counts (handle env m.config) m.dispatcher event event serialized elapsed
              (m.heap, w)).0)
        (dispatch_keeps (handle env m.config) (λ s. Keeps m.heap s.0)
          (λ h bytes s k id a x. handle-Keeps env m.config h bytes s id a (k id a x)) m.dispatcher
          event serialized elapsed (m.heap, w) (λ id a x. x))
        v

  enable_each-IsConsistent :
      (ids : List String) (m : Manager I) (w : W)
      → IsConsistent m
      → IsConsistent (enable_each env ids (m, w)).0
  unfolding enable_each
  enable_each-IsConsistent [] m w v = v
  enable_each-IsConsistent (id ∷ ids) m w v =
      enable_each-IsConsistent ids (enable_plugin env m id w).1 (enable_plugin env m id w).2
        (enable_plugin-IsConsistent env m id w v)

  disable_each-IsConsistent :
      (ids : List String) (m : Manager I) (w : W)
      → IsConsistent m
      → IsConsistent (disable_each env ids (m, w)).0
  unfolding disable_each
  disable_each-IsConsistent [] m w v = v
  disable_each-IsConsistent (id ∷ ids) m w v =
      disable_each-IsConsistent ids (disable_plugin env m id w).1 (disable_plugin env m id w).2
        (disable_plugin-IsConsistent env m id w v)

  -- One call of an operation of the manager, but `Close`.
  pub data Step (sorter : Sorter (Subscription Handler)) : Manager I → Manager I → Type 0 where
    loads :
        (m : Manager I) (manifest : Manifest) (path : String) (w : W)
        → Step sorter m (load_plugin env sorter manifest m path w).1
    enables : (m : Manager I) (id : String) (w : W) → Step sorter m (enable_plugin env m id w).1
    disables : (m : Manager I) (id : String) (w : W) → Step sorter m (disable_plugin env m id w).1
    unloads : (m : Manager I) (id : String) (w : W) → Step sorter m (unload_plugin env m id w).1
    enables_all : (m : Manager I) (w : W) → Step sorter m (enable_all env m w).0
    disables_all : (m : Manager I) (w : W) → Step sorter m (disable_all env m w).0
    dispatches :
        (m : Manager I) (event : EventType) (serialized : List ℕ) (elapsed : ℤ) (w : W)
        → Step sorter m (dispatch_event env m event serialized elapsed w).1

  pub data Reach (sorter : Sorter (Subscription Handler)) (m : Manager I) : Manager I → Type 0 where
    here : Reach sorter m m
    next : {t u : Manager I} → Reach sorter m t → Step sorter t u → Reach sorter m u

  unload_plugin-IsConsistent :
      (m : Manager I) (id : String) (w : W)
      → IsConsistent m
      → IsConsistent (unload_plugin env m id w).1
  unload_plugin-IsConsistent m id w v = elim (found_cases m id) [
    | inl e ↦ subst IsConsistent (sym (unload_plugin_missing env m id w e)) v
    | inr (a, p, _, h, _) ↦ (unload_plugin_removes env id a m w v h).2
  ]

  Step-IsConsistent :
      {sorter : Sorter (Subscription Handler)} {t u : Manager I}
      → Step sorter t u
      → IsConsistent t
      → IsConsistent u
  unfolding enable_all disable_all
  Step-IsConsistent {sorter} (loads m manifest path w) v =
      load_plugin-IsConsistent env sorter manifest m path w v
  Step-IsConsistent (enables m id w) v = enable_plugin-IsConsistent env m id w v
  Step-IsConsistent (disables m id w) v = disable_plugin-IsConsistent env m id w v
  Step-IsConsistent (unloads m id w) v = unload_plugin-IsConsistent m id w v
  Step-IsConsistent (enables_all m w) v = enable_each-IsConsistent m.load_order m w v
  Step-IsConsistent (disables_all m w) v =
      disable_each-IsConsistent (reversed m.load_order []) m w v
  Step-IsConsistent (dispatches m event serialized elapsed w) v =
      dispatch_event-IsConsistent m event serialized elapsed w v

  -- After any sequence of loading, enabling, disabling, unloading and dispatching from a new
  -- manager, whatever the plugins do: the load order lists the plugins of the map, each once; each
  -- entry of the map points to a plugin with that ID in one of the states loaded, enabled, disabled
  -- and error; and every subscription belongs to the plugin that the map has under its ID.
  pub Reach-IsConsistent :
      {sorter : Sorter (Subscription Handler)} {cfg : Config} {m : Manager I}
      → Reach sorter (new_manager cfg) m
      → IsConsistent m
  unfolding get contains
  Reach-IsConsistent here = record {
    distinct = tt;
    order = λ id. refl;
    stored = λ id a h. cc;
    linked = λ e. tt;
  }
  Reach-IsConsistent (next r s) = Step-IsConsistent s (Reach-IsConsistent r)
