-- ===== src/Manager/Lifecycle/Adding.antt =====
-- `loadPlugin`: when it can load a plugin, and what a manager is with the plugin added.
use mathlib.Core.List.Perm
use mathlib.Core.List.{Perm, append_assoc, append-nil}
use dragonfly_wasm.Prelude.{
  ℕ, String, ◌≡◌, refl, sym, subst, inl, inr, true, false, none, some, List, [], ◌∷◌, ◌++◌, str_eq,
  if◌then◌else◌, length, get, get-put, is_some, text_cases,
}
use dragonfly_wasm.Prelude.Sorting.{Sorter}
use dragonfly_wasm.Config.{get_effective_limits, max_pages}
use dragonfly_wasm.Plugin.Manifest.{Manifest, EventSubscription, EventType}
use dragonfly_wasm.Plugin.State.{loaded}
use dragonfly_wasm.Plugin.Info.{Info}
use dragonfly_wasm.Events.{Subscription, Dispatcher, subs_of, subscribe, compare_priority}
use dragonfly_wasm.Events.Priorities.{subs_of-subscribe}
use dragonfly_wasm.Manager.Wasm.{Wasm, Created, created}
use dragonfly_wasm.Manager.Lifecycle.{Manager, Handler, register_event_handlers, load_ready}

-- The subscription of the plugin at `a` for an entry of its manifest.
abbrev pub subscription : ℕ → String → EventSubscription → Subscription Handler
subscription a id s = record {
  plugin_id = id;
  priority = s.priority;
  handler = record { plugin = a; event = s.event };
  ignore_cancelled = s.ignore_cancelled;
}

-- The same, if it is one to this event.
abbrev pub subscription_to :
    ℕ → String → EventType → EventSubscription → List (Subscription Handler)
subscription_to a id e s = if str_eq s.event e then subscription a id s ∷ [] else []

abbrev pub subscriptions_to :
    ℕ → String → EventType → List EventSubscription → List (Subscription Handler)
subscriptions_to a id e [] = []
subscriptions_to a id e (s ∷ events) = subscription_to a id e s ++ subscriptions_to a id e events

module _ (sorter : Sorter (Subscription Handler)) (a : ℕ) (id : String) (e : EventType) where
  subscribe-Perm :
      (s : EventSubscription) (d : Dispatcher Handler)
      → Perm
          (subs_of (subscribe sorter d s.event (subscription a id s)) e)
          (subs_of d e ++ subscription_to a id e s)
  subscribe-Perm s d = elim (text_cases s.event e) [
    | inl (t, same) ↦
        rw (subs_of-subscribe sorter d s.event _ e, t)
          (subst
            (λ x.
              Perm
                (sorter.sort_func compare_priority (subs_of d s.event ++ subscription a id s ∷ []))
                (subs_of d x ++ subscription a id s ∷ []))
            same
            (sorter.sort_func-perm compare_priority
              (subs_of d s.event ++ subscription a id s ∷ [])))
    | inr (f, ne) ↦
        rw (subs_of-subscribe sorter d s.event _ e, f)
          (subst (Perm (subs_of d e)) (sym (append-nil (subs_of d e))) Perm.rfl)
  ]

  register-Perm :
      (events : List EventSubscription) (d : Dispatcher Handler)
      → Perm
          (subs_of (register_event_handlers sorter a id events d) e)
          (subs_of d e ++ subscriptions_to a id e events)
  unfolding register_event_handlers
  register-Perm [] d = subst (Perm (subs_of d e)) (sym (append-nil (subs_of d e))) Perm.rfl
  register-Perm (s ∷ events) d = Perm.trans (register-Perm events _) (
      subst (Perm _)
        (append_assoc (subs_of d e) (subscription_to a id e s) (subscriptions_to a id e events))
        (Perm.append (subscribe-Perm s d) Perm.rfl))

module _ {I W : Type 0} (env : Wasm I W) (manifest : Manifest) (m : Manager I)
    (plugin_path : String) (w : W) where
  abbrev pub wasm_path_of : String
  wasm_path_of = env.join plugin_path manifest.entry_point

  abbrev pub data_path_of : String
  data_path_of = env.join m.config.data_dir manifest.id

  -- The instance that the extism library makes, within the limits of the plugin and of the server,
  -- behind the data directory and the clock.
  abbrev pub attempt : Created I × W
  attempt =
      env.new_plugin wasm_path_of (max_pages (get_effective_limits m.config manifest.limits))
        (env.now (env.mkdir_all data_path_of w).1).1

  -- The plugin can be loaded, with this instance: its ID is free, its data directory can be made,
  -- and its instance is made, has both exports and starts without an error.
  pub record CanLoad (instance : I) : Type 0 where
    pub fresh : is_some (get m.plugins manifest.id) ≡ false
    pub directory : (env.mkdir_all data_path_of w).0 ≡ none
    pub made : attempt.0 ≡ created instance
    pub starts : env.function_exists instance "plugin_init" ≡ true
    pub handles : env.function_exists instance "handle_event" ≡ true
    pub initialised : (env.call instance "plugin_init" [] attempt.1).0.err ≡ none

  -- The manager with the plugin added, in the state `loaded`: behind the others on the heap and in
  -- the load order, under its ID in the map, and with its subscriptions besides the old ones.
  pub record Added (instance : I) (m' : Manager I) : Type 0 where
    pub info : Info
    pub heap : m'.heap ≡ m.heap ++ record { info = info; instance = instance } ∷ []
    pub is_of : info.manifest ≡ manifest
    pub state : info.state ≡ loaded
    pub wasm_path : info.wasm_path ≡ wasm_path_of
    pub data_path : info.data_path ≡ data_path_of
    pub plugins :
        (id : String)
        → get m'.plugins id
          ≡ (if str_eq manifest.id id then some (length m.heap) else get m.plugins id)
    pub load_order : m'.load_order ≡ m.load_order ++ manifest.id ∷ []
    pub subscribed :
        (e : EventType)
        → Perm (subs_of m'.dispatcher e) (
            subs_of m.dispatcher e
            ++ subscriptions_to (length m.heap) manifest.id e manifest.events)

  pub load_ready-Added :
      (sorter : Sorter (Subscription Handler)) (info : Info) (instance : I)
      → info.manifest ≡ manifest
      → info.wasm_path ≡ wasm_path_of
      → info.data_path ≡ data_path_of
      → Added instance (load_ready env sorter manifest m info instance)
  unfolding load_ready
  load_ready-Added sorter info instance h u v = record {
    info = record info { state = loaded };
    heap = refl;
    is_of = h;
    state = refl;
    wasm_path = u;
    data_path = v;
    plugins = λ id. get-put m.plugins manifest.id id (length m.heap);
    load_order = refl;
    subscribed = λ e.
        subst
          (λ x.
            Perm
              (subs_of
                (register_event_handlers sorter (length m.heap) manifest.id info.manifest.events
                  m.dispatcher)
                e)
              (subs_of m.dispatcher e ++ subscriptions_to (length m.heap) manifest.id e x.events))
          h (register-Perm sorter (length m.heap) manifest.id e info.manifest.events m.dispatcher);
  }
