-- ===== src/Manager/Lifecycle/Loading.antt =====
-- `loadPlugin`: how it ends, and the plugin that it adds.
use dragonfly_wasm.Prelude.{
  ℕ, String, ◌≡◌, refl, sym, ◌∙◌, ap, subst, ◌⊎◌, inl, inr, Bool, true, false, Option, none, some,
  List, [], ◌∷◌, ◌++◌, ◌==◌, str_eq_self, eq_iff, arith, All, if◌then◌else◌, length, GoMap, get,
  put, get-put, is_some, contains, contains-append, Distinct, text_cases, Bool-cases,
}
use dragonfly_wasm.Prelude.Sorting.{Sorter}
use dragonfly_wasm.Prelude.Heap.{get_elem?, get_elem?-append, get_elem?-length}
use dragonfly_wasm.Config.{get_effective_limits}
use dragonfly_wasm.Plugin.Manifest.{Manifest, EventSubscription, EventType, ResourceLimits}
use dragonfly_wasm.Plugin.State.{loaded, loading}
use dragonfly_wasm.Plugin.Info.{Info, new_info}
use dragonfly_wasm.Events.{Subscription, Dispatcher, subs_of}
use dragonfly_wasm.Manager.Wasm.{Wasm, Created, created, refused}
use dragonfly_wasm.Manager.Lifecycle.{
  LoadedPlugin, Manager, Handler, LoadError, register_event_handlers, load_ready, load_initialised,
  load_created, load_directory, load_plugin,
}
use dragonfly_wasm.Manager.Lifecycle.Adding.{
  CanLoad, Added, attempt, wasm_path_of, data_path_of, load_ready-Added,
}
use dragonfly_wasm.Manager.Lifecycle.Consistent.{
  is_linked, IsStored, IsConsistent, Keeps, subscribe-All,
}

Distinct-snoc :
    (l : List String) (s : String) → Distinct l → contains l s ≡ false → Distinct (l ++ s ∷ [])
unfolding contains
Distinct-snoc [] s d h = (refl, tt)
Distinct-snoc (x ∷ l) s d h = (
  contains-append l (s ∷ []) x ∙ ground (arith, d.0, eq_iff s x, eq_iff x s),
  Distinct-snoc l s d.1 (ground arith),
)

All-mono :
    {A : Type 0} (p q : A → Bool) (l : List A)
    → ((x : A) → p x ≡ true → q x ≡ true)
    → All (λ x. p x ≡ true) l
    → All (λ x. q x ≡ true) l
All-mono p q [] f h = tt
All-mono p q (x ∷ l) f h = (f x h.0, All-mono p q l f h.1)

-- Old subscriptions belong to other plugins than a new one.
is_linked-put :
    (plugins : GoMap ℕ) (id : String) (a : ℕ) (e : EventType) (s : Subscription Handler)
    → is_some (get plugins id) ≡ false
    → is_linked plugins e s ≡ true
    → is_linked (put plugins id a) e s ≡ true
is_linked-put plugins id a e s fresh h = elim (text_cases id s.plugin_id) [
  | inl (t, same) ↦ absurd (ground (arith, ap (get plugins) same))
  | inr (f, _) ↦ rw get-put (rw f h)
]

-- The event handlers of the plugin at `a`.
register_event_handlers-All :
    (sorter : Sorter (Subscription Handler)) (plugins : GoMap ℕ) (a : ℕ) (id : String)
    (events : List EventSubscription) (d : Dispatcher Handler)
    → get plugins id ≡ some a
    → ((e : EventType) → All (λ s. is_linked plugins e s ≡ true) (subs_of d e))
    → (e : EventType)
    → All
        (λ s. is_linked plugins e s ≡ true)
        (subs_of (register_event_handlers sorter a id events d) e)
unfolding register_event_handlers
register_event_handlers-All sorter plugins a id [] d at v e = v e
register_event_handlers-All sorter plugins a id (sub ∷ events) d at v e =
    register_event_handlers-All sorter plugins a id events _ at
      (λ x. subscribe-All sorter d sub.event x _ (is_linked plugins x) (v x) (new x)) e
  where
    new :
        (x : EventType)
        → sub.event ≡ x
        → is_linked plugins x (record {
          plugin_id = id;
          priority = sub.priority;
          handler = record { plugin = a; event = sub.event };
          ignore_cancelled = sub.ignore_cancelled;
        })
          ≡ true
    new x same = ground (arith, at, eq_iff sub.event x)

old_entry :
    {A : Type 0} (heap : List A) (n b : ℕ) (q w : A)
    → get_elem? heap n ≡ none
    → get_elem? heap b ≡ some q
    → (if n == b then some w else get_elem? heap b) ≡ some q
old_entry {A} heap n b q w e f = elim (Bool-cases (n == b)) [
  | inl t ↦ absurd (clash n b (ground arith) e f)
  | inr g ↦ rw g f
]
  where
    clash : (i j : ℕ) → i ≡ j → get_elem? heap i ≡ none → get_elem? heap j ≡ some q → ⊥
    clash i j s e f = cc

some_eq : {A : Type 0} {a b : A} → some a ≡ some b → a ≡ b
some_eq e = cc

module _ {I W : Type 0} (env : Wasm I W) (sorter : Sorter (Subscription Handler))
    (manifest : Manifest) (m : Manager I) where
  module _ (plugin_path : String) (w : W) where
    abbrev Loads : I → Type 0
    Loads = CanLoad env manifest m plugin_path w

    -- How loading ends: with an error and the manager unchanged, when the plugin cannot be loaded, or
    -- with the plugin added, as `load_ready` does it.
    abbrev LoadEnd : Option LoadError × Manager I × W → Type 0
    LoadEnd (e, m', w') =
        ((err : LoadError) × (e ≡ some err) × (m' ≡ m) × ((i : I) → Loads i → ⊥))
        ⊎ ((info : Info) × (instance : I) × (e ≡ none)
            × (info.manifest ≡ manifest)
            × Loads instance
            × Added env manifest m plugin_path w instance m'
            × (m' ≡ load_ready env sorter manifest m info instance))

    abbrev in_attempt : Created I × W
    in_attempt = attempt env manifest m plugin_path w

    same_instance : (i j : I) → in_attempt.0 ≡ created i → Loads j → j ≡ i
    same_instance i j h l = inj (sym l.made ∙ h)
      where
        inj : created j ≡ created i → j ≡ i
        inj e = cc

    module _ (limits : ResourceLimits) (info : Info) (h : info.manifest ≡ manifest)
        (u : info.wasm_path ≡ wasm_path_of env manifest m plugin_path w)
        (v : info.data_path ≡ data_path_of env manifest m plugin_path w)
        (fresh : is_some (get m.plugins manifest.id) ≡ false)
        (directory : (env.mkdir_all (data_path_of env manifest m plugin_path w) w).0 ≡ none) where
      load_initialised_end :
          (instance : I) (err : Option String) (w' : W)
          → in_attempt.0 ≡ created instance
          → env.function_exists instance "plugin_init" ≡ true
          → env.function_exists instance "handle_event" ≡ true
          → (env.call instance "plugin_init" [] in_attempt.1).0.err ≡ err
          → LoadEnd (load_initialised env sorter manifest m limits info instance err w')
      unfolding load_initialised
      load_initialised_end instance none w' made starts handles e = inr (
        info,
        instance,
        refl,
        h,
        record {
          fresh = fresh;
          directory = directory;
          made = made;
          starts = starts;
          handles = handles;
          initialised = e;
        },
        load_ready-Added env manifest m plugin_path w sorter info instance h u v,
        refl,
      )
      load_initialised_end instance (some err) w' made starts handles e =
          inl (_, refl, refl, λ j l. clash j (same_instance instance j made l) l.initialised)
        where
          some_none : some err ≡ none → ⊥
          some_none q = cc

          clash :
              (j : I) → j ≡ instance → (env.call j "plugin_init" [] in_attempt.1).0.err ≡ none → ⊥
          clash j q n =
              some_none
                (sym e ∙ ap (λ x. (env.call x "plugin_init" [] in_attempt.1).0.err) (sym q) ∙ n)

      missing :
          (instance : I) (name : String) (j : I)
          → in_attempt.0 ≡ created instance
          → env.function_exists instance name ≡ false
          → Loads j
          → env.function_exists j name ≡ true
          → ⊥
      missing instance name j made f l t =
          clash (
            sym f
            ∙ ap (λ x. env.function_exists x name) (sym (same_instance instance j made l))
            ∙ t)
        where
          clash : false ≡ true → ⊥
          clash q = cc

      load_created_end :
          (c : Created I)
          → in_attempt.0 ≡ c
          → LoadEnd (load_created env sorter manifest m limits info c in_attempt.1)
      unfolding load_created
      load_created_end (refused err) e = inl (_, refl, refl, λ j l. clash j (sym e ∙ l.made))
        where
          clash : (j : I) → refused err ≡ created j → ⊥
          clash j q = cc
      load_created_end (created instance) e =
          elim (Bool-cases (env.function_exists instance "plugin_init")) [
            | inr f ↦
                rw f (inl (_, refl, refl, λ j l. missing instance "plugin_init" j e f l l.starts))
            | inl t ↦ elim (Bool-cases (env.function_exists instance "handle_event")) [
              | inr f ↦
                  rw (t, f)
                    (inl (_, refl, refl, λ j l. missing instance "handle_event" j e f l l.handles))
              | inl y ↦ rw (t, y) (load_initialised_end instance _ _ e t y refl)
            ]
          ]

    load_directory_end :
        (made : Option String)
        → is_some (get m.plugins manifest.id) ≡ false
        → (env.mkdir_all (data_path_of env manifest m plugin_path w) w).0 ≡ made
        → LoadEnd (
            load_directory env sorter manifest m
              (wasm_path_of env manifest m plugin_path w)
              (data_path_of env manifest m plugin_path w)
              made
              (env.mkdir_all (data_path_of env manifest m plugin_path w) w).1)
    unfolding load_directory
    load_directory_end (some err) fresh e = inl (_, refl, refl, λ j l. clash (sym e ∙ l.directory))
      where
        clash : some err ≡ none → ⊥
        clash q = cc
    load_directory_end none fresh e =
        let (time, w1) = env.now (env.mkdir_all (data_path_of env manifest m plugin_path w) w).1 in
        let wasm_path = wasm_path_of env manifest m plugin_path w in
        let info : Info =
          record (new_info manifest wasm_path (data_path_of env manifest m plugin_path w)) {
            state = loading;
            loaded_at = time;
          } in
        load_created_end (get_effective_limits m.config manifest.limits) info refl refl refl fresh e
          in_attempt.0 refl

    load_plugin_cases : LoadEnd (load_plugin env sorter manifest m plugin_path w)
    unfolding load_plugin
    load_plugin_cases = elim (Bool-cases (is_some (get m.plugins manifest.id))) [
      | inl t ↦ rw t (inl (_, refl, refl, λ j l. taken t l))
      | inr f ↦ rw f (load_directory_end _ f refl)
    ]
      where
        clash : true ≡ false → ⊥
        clash q = cc

        taken : {j : I} → is_some (get m.plugins manifest.id) ≡ true → Loads j → ⊥
        taken t l = clash (sym t ∙ l.fresh)

    -- Loading a plugin ends with an error and the manager as it was, exactly when the plugin cannot
    -- be loaded; or without an error and with the plugin added in the state `loaded`, exactly when
    -- it can: its ID is free, its data directory can be made, and its instance is made within the
    -- limits, has both exports and starts without an error.
    pub load_plugin_end :
        ((err : LoadError) × ((load_plugin env sorter manifest m plugin_path w).0 ≡ some err)
          × ((load_plugin env sorter manifest m plugin_path w).1 ≡ m)
          × ((i : I) → CanLoad env manifest m plugin_path w i → ⊥))
        ⊎ ((instance : I) × ((load_plugin env sorter manifest m plugin_path w).0 ≡ none)
            × CanLoad env manifest m plugin_path w instance
            × Added env manifest m plugin_path w instance
                (load_plugin env sorter manifest m plugin_path w).1)
    load_plugin_end = elim load_plugin_cases [
      | inl x ↦ inl x
      | inr (info, instance, e, h, l, added, same) ↦ inr (instance, e, l, added)
    ]

  module _ (info : Info) (instance : I) (h : info.manifest ≡ manifest)
      (fresh : is_some (get m.plugins manifest.id) ≡ false) (v : IsConsistent m) where
    abbrev grown : List (LoadedPlugin I)
    grown = m.heap ++ record { info = record info { state = loaded }; instance = instance } ∷ []

    grown-Keeps : Keeps m.heap grown
    grown-Keeps id a s = record {
      plugin = s.plugin;
      at =
          get_elem?-append m.heap _ a
          ∙ old_entry m.heap (length m.heap) a s.plugin _ (get_elem?-length m.heap) s.at;
      named = s.named;
      settled = s.settled;
    }

    new-IsStored : IsStored grown manifest.id (length m.heap)
    new-IsStored = record {
      plugin = record { info = record info { state = loaded }; instance = instance };
      at = get_elem?-append m.heap _ (length m.heap) ∙ ground arith;
      named = ap (λ x. x.id) h;
      settled = refl;
    }

    load_ready-IsConsistent : IsConsistent (load_ready env sorter manifest m info instance)
    unfolding load_ready
    load_ready-IsConsistent = record {
      distinct = Distinct-snoc m.load_order manifest.id v.distinct (v.order manifest.id ∙ fresh);
      order = λ id.
          contains-append m.load_order (manifest.id ∷ []) id
          ∙ (unfold contains in
              ground (arith, v.order id, get-put m.plugins manifest.id id (length m.heap)));
      stored = λ id a at. elim (text_cases manifest.id id) [
        | inl (t, same) ↦
            subst (IsStored grown id)
              (some_eq (sym (get-put m.plugins manifest.id id (length m.heap) ∙ rw t refl) ∙ at))
              (subst (λ x. IsStored grown x (length m.heap)) same new-IsStored)
        | inr (f, _) ↦ grown-Keeps id a (
            v.stored id a (sym (get-put m.plugins manifest.id id (length m.heap) ∙ rw f refl) ∙ at))
      ];
      linked =
          register_event_handlers-All sorter (put m.plugins manifest.id (length m.heap))
            (length m.heap) manifest.id info.manifest.events m.dispatcher
            (get-put m.plugins manifest.id manifest.id (length m.heap)
              ∙ rw (str_eq_self manifest.id) refl)
            (λ e.
              All-mono (is_linked m.plugins e) _ (subs_of m.dispatcher e)
                (λ s. is_linked-put m.plugins manifest.id (length m.heap) e s fresh) (v.linked e));
    }

  pub load_plugin-IsConsistent :
      (plugin_path : String) (w : W)
      → IsConsistent m
      → IsConsistent (load_plugin env sorter manifest m plugin_path w).1
  load_plugin-IsConsistent plugin_path w v = elim (load_plugin_cases plugin_path w) [
    | inl (err, e, same, cannot) ↦ subst IsConsistent (sym same) v
    | inr (info, instance, e, h, l, added, same) ↦
        subst IsConsistent (sym same) (load_ready-IsConsistent info instance h l.fresh v)
  ]
