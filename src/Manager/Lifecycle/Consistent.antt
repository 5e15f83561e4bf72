-- ===== src/Manager/Lifecycle/Consistent.antt =====
-- What a manager keeps true of its load order, its map of plugins, its heap and its dispatcher.
use dragonfly_wasm.Prelude.{
  ℕ, String, ◌≡◌, refl, sym, ◌∙◌, ap, subst, inl, inr, Bool, true, false, ◌&&◌, Option, none, some,
  List, [], ◌∷◌, ◌++◌, ◌==◌, str_eq, arith, All, All-append, if◌then◌else◌, GoMap, get, is_some,
  contains, Distinct, text_cases, Bool-cases,
}
use dragonfly_wasm.Prelude.Sorting.{Sorter, All-perm}
use dragonfly_wasm.Prelude.Heap.{get_elem?, set_elem, get_elem?-set_elem}
use dragonfly_wasm.Plugin.Manifest.{EventType}
use dragonfly_wasm.Plugin.State.{
  State, loaded, enabled, disabled, error, unloaded, loading, enabling, disabling,
}
use dragonfly_wasm.Events.{Subscription, Dispatcher, subs_of, subscribe, compare_priority}
use dragonfly_wasm.Events.Priorities.{subs_of-subscribe}
use dragonfly_wasm.Manager.Lifecycle.{LoadedPlugin, Manager, Handler}
use dragonfly_wasm.Manager.Lifecycle.Operations.{store_plugin}

-- The states in which an operation leaves a plugin of the map.
abbrev pub is_settled : State → Bool
is_settled loaded = true
is_settled enabled = true
is_settled disabled = true
is_settled error = true
is_settled unloaded = false
is_settled loading = false
is_settled enabling = false
is_settled disabling = false

abbrev pub points_to : Option ℕ → ℕ → Bool
points_to none b = false
points_to (some a) b = a == b

-- A subscription of a plugin in the map, to the event that its handler is made for.
abbrev pub is_linked : GoMap ℕ → EventType → Subscription Handler → Bool
is_linked plugins event s =
    points_to (get plugins s.plugin_id) s.handler.plugin && str_eq s.handler.event event

module _ {I : Type 0} where
  pub record IsStored (heap : List (LoadedPlugin I)) (id : String) (a : ℕ) : Type 0 where
    pub plugin : LoadedPlugin I
    pub at : get_elem? heap a ≡ some plugin
    pub named : plugin.info.manifest.id ≡ id
    pub settled : is_settled plugin.info.state ≡ true

  pub record IsConsistent (m : Manager I) : Type 0 where
    pub distinct : Distinct m.load_order
    pub order : (id : String) → contains m.load_order id ≡ is_some (get m.plugins id)
    pub stored : (id : String) (a : ℕ) → get m.plugins id ≡ some a → IsStored m.heap id a
    pub linked :
        (e : EventType) → All (λ s. is_linked m.plugins e s ≡ true) (subs_of m.dispatcher e)

  -- A change of the heap that leaves every settled plugin settled, with its manifest.
  abbrev pub Keeps : List (LoadedPlugin I) → List (LoadedPlugin I) → Type 0
  Keeps heap heap' = (id : String) (a : ℕ) → IsStored heap id a → IsStored heap' id a

  pub Keeps-set_elem :
      (heap : List (LoadedPlugin I)) (a : ℕ) (p p' : LoadedPlugin I)
      → get_elem? heap a ≡ some p
      → p'.info.manifest.id ≡ p.info.manifest.id
      → (is_settled p.info.state ≡ true → is_settled p'.info.state ≡ true)
      → Keeps heap (set_elem heap a p')
  Keeps-set_elem heap a p p' at named settled id b s = elim (Bool-cases (a == b)) [
    | inl t ↦
        let same : s.plugin ≡ p = found a b heap s.plugin p (ground arith) at s.at in
        record {
          plugin = p';
          at =
              get_elem?-set_elem heap a b p' p at
              ∙ ap (λ c. if c then some p' else get_elem? heap b) t;
          named = named ∙ sym (ap (λ q. q.info.manifest.id) same) ∙ s.named;
          settled = settled (sym (ap (λ q. is_settled q.info.state) same) ∙ s.settled);
        }
    | inr f ↦ record {
      plugin = s.plugin;
      at =
          get_elem?-set_elem heap a b p' p at
          ∙ ap (λ c. if c then some p' else get_elem? heap b) f
          ∙ s.at;
      named = s.named;
      settled = s.settled;
    }
  ]
    where
      found :
          (i j : ℕ) (h : List (LoadedPlugin I)) (q r : LoadedPlugin I)
          → i ≡ j
          → get_elem? h i ≡ some r
          → get_elem? h j ≡ some q
          → q ≡ r
      found i j h q r e f g = cc

  -- Operations that leave the maps alone keep a manager consistent when the heap keeps its plugins.
  pub Keeps-IsConsistent :
      (m m' : Manager I)
      → m'.plugins ≡ m.plugins
      → m'.load_order ≡ m.load_order
      → ((e : EventType) → subs_of m'.dispatcher e ≡ subs_of m.dispatcher e)
      → Keeps m.heap m'.heap
      → IsConsistent m
      → IsConsistent m'
  Keeps-IsConsistent m m' same order subs keeps v = record {
    distinct = subst Distinct (sym order) v.distinct;
    order =
        λ id. ap (λ l. contains l id) order ∙ v.order id ∙ ap (λ p. is_some (get p id)) (sym same);
    stored = λ id a h. keeps id a (v.stored id a (ap (λ p. get p id) (sym same) ∙ h));
    linked = λ e. subst (All (λ s. is_linked m'.plugins e s ≡ true)) (sym (subs e)) (
        subst (λ p. All (λ s. is_linked p e s ≡ true) (subs_of m.dispatcher e)) (sym same)
          (v.linked e));
  }

  pub store_plugin-IsConsistent :
      (m : Manager I) (a : ℕ) (p p' : LoadedPlugin I)
      → get_elem? m.heap a ≡ some p
      → p'.info.manifest.id ≡ p.info.manifest.id
      → is_settled p'.info.state ≡ true
      → IsConsistent m
      → IsConsistent (store_plugin m a p')
  store_plugin-IsConsistent m a p p' at named settled v =
      Keeps-IsConsistent m (store_plugin m a p') refl refl (λ e. refl)
        (Keeps-set_elem m.heap a p p' at named (λ _. settled)) v

-- A new subscription that passes a test, where all old ones do.
pub subscribe-All :
    {H : Type 0} (sorter : Sorter (Subscription H)) (d : Dispatcher H) (event e : EventType)
    (sub : Subscription H) (p : Subscription H → Bool)
    → All (λ s. p s ≡ true) (subs_of d e)
    → (event ≡ e → p sub ≡ true)
    → All (λ s. p s ≡ true) (subs_of (subscribe sorter d event sub) e)
subscribe-All {H} sorter d event e sub p old new =
    subst (All (λ s. p s ≡ true)) (sym (subs_of-subscribe sorter d event sub e))
      (elim (text_cases event e) [
        | inr (f, _) ↦ rw f old
        | inl (t, same) ↦ rw t (
            All-perm p (sorter.sort_func-perm compare_priority (subs_of d event ++ sub ∷ [])) (
              All-append (λ s. p s ≡ true) (subs_of d event) (sub ∷ [])
                (subst (λ x. All (λ s. p s ≡ true) (subs_of d x)) (sym same) old) (new same, tt)))
      ])
