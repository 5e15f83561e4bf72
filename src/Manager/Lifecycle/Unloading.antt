-- ===== src/Manager/Lifecycle/Unloading.antt =====
-- `UnloadPlugin`: what it takes away, and what it leaves.
use dragonfly_wasm.Prelude.{
  ℕ, String, ◌≡◌, refl, sym, ◌∙◌, ap, subst, ◌≢◌, inl, inr, true, false, not, ◌&&◌, Option, none,
  some, List, [], ◌∷◌, ◌++◌, ◌==◌, arith, str_eq, eq_iff, str_eq_self, str_eq_sym, All, select,
  GoMap, get, delete, get-delete, is_some, contains, Distinct, Bool-cases, text_cases,
}
use dragonfly_wasm.Prelude.Heap.{get_elem?, set_elem, get_elem?-set_elem}
use dragonfly_wasm.Plugin.Manifest.{EventType}
use dragonfly_wasm.Plugin.State.{is_enabled, unloaded}
use dragonfly_wasm.Events.{Subscription, subs_of, unsubscribe, without_plugin}
use dragonfly_wasm.Events.Unsubscribing.{
  of_plugin, unsubscribe_removes, subs_of-unsubscribe, of_plugin-without_plugin,
}
use dragonfly_wasm.Manager.Wasm.{Wasm}
use dragonfly_wasm.Manager.Lifecycle.{LoadedPlugin, Manager, Handler}
use dragonfly_wasm.Manager.Lifecycle.Operations.{
  PluginError, find_plugin, with_state, disable_plugin, unload_found, unload_pointed, unload_now,
  unload_disabled, unload_entry, unload_plugin,
}
use dragonfly_wasm.Manager.Lifecycle.Consistent.{is_linked, points_to, IsStored, IsConsistent}
use dragonfly_wasm.Manager.Lifecycle.Switching.{
  disable_plugin_ends, disable_plugin_same, disable_plugin_frame, disable_plugin-IsConsistent,
}

contains-select :
    (l : List String) (id j : String)
    → contains (select (λ s. not (str_eq s id)) l) j ≡ (contains l j && not (str_eq j id))
unfolding contains
contains-select [] id j = refl
contains-select (x ∷ l) id j =
    ground (arith, contains-select l id j, eq_iff x j, eq_iff x id, eq_iff j id)

Distinct-select :
    (l : List String) (id : String) → Distinct l → Distinct (select (λ s. not (str_eq s id)) l)
Distinct-select [] id d = tt
Distinct-select (x ∷ l) id d = elim (Bool-cases (str_eq x id)) [
  | inl t ↦ rw t (Distinct-select l id d.1)
  | inr f ↦ rw f ((contains-select l id x ∙ ground (arith, d.0), Distinct-select l id d.1))
]

select_absent :
    (l : List String) (id : String) → contains l id ≡ false → select (λ s. not (str_eq s id)) l ≡ l
unfolding contains
select_absent [] id h = refl
select_absent (x ∷ l) id h =
    let rest = select_absent l id (ground arith) in
    let other : str_eq x id ≡ false = ground arith in rw other (ap (λ t. x ∷ t) rest)

-- A list without one of its elements, with the others in their order.
abbrev pub Without : List String → String → List String → Type 0
Without l id l' = (before after : List String) × (l ≡ before ++ id ∷ after) × (l' ≡ before ++ after)

select-Without :
    (l : List String) (id : String)
    → Distinct l
    → contains l id ≡ true
    → Without l id (select (λ s. not (str_eq s id)) l)
unfolding contains
select-Without [] id d h = cc
select-Without (x ∷ l) id d h = elim (text_cases x id) [
  | inl (t, same) ↦
      rw t ([], l, ap (λ y. y ∷ l) same, select_absent l id (ap (contains l) (sym same) ∙ d.0))
  | inr (f, ne) ↦
      let (before, after, old, new) = select-Without l id d.1 (ground arith) in
      rw f (x ∷ before, after, ap (λ t. x ∷ t) old, ap (λ t. x ∷ t) new)
]

is_linked-delete :
    (plugins : GoMap ℕ) (id : String) (e : EventType) (l : List (Subscription Handler))
    → All (λ s. is_linked plugins e s ≡ true) l
    → All (λ s. is_linked (delete plugins id) e s ≡ true) (without_plugin id l)
is_linked-delete plugins id e [] h = tt
is_linked-delete plugins id e (s ∷ l) h = elim (Bool-cases (str_eq s.plugin_id id)) [
  | inl t ↦ rw t (is_linked-delete plugins id e l h.1)
  | inr f ↦ rw f (
      (
        ap (λ o. points_to o s.handler.plugin && str_eq s.handler.event e)
              (get-delete plugins id s.plugin_id ∙ ground (arith, str_eq_sym id s.plugin_id))
            ∙ h.0,
        is_linked-delete plugins id e l h.1,
      ))
]

module _ {I : Type 0} where
  -- What unloading the plugin `id`, which was at `a`, makes of a manager.
  pub record Unloaded (m m' : Manager I) (id : String) (a : ℕ) : Type 0 where
    pub gone : get m'.plugins id ≡ none
    pub others : (j : String) → id ≢ j → get m'.plugins j ≡ get m.plugins j
    pub unordered : Without m.load_order id m'.load_order
    pub untouched : (b : ℕ) → (a == b) ≡ false → get_elem? m'.heap b ≡ get_elem? m.heap b
    pub silent : (e : EventType) → of_plugin id (subs_of m'.dispatcher e) ≡ []
    pub kept :
        (e : EventType) (j : String)
        → id ≢ j
        → of_plugin j (subs_of m'.dispatcher e) ≡ of_plugin j (subs_of m.dispatcher e)
    pub state : (q : LoadedPlugin I) × (get_elem? m'.heap a ≡ some q) × (q.info.state ≡ unloaded)

module _ {I W : Type 0} (env : Wasm I W) (m : Manager I) (id : String) (a : ℕ) (q : LoadedPlugin I)
    (w : W) (at : get_elem? m.heap a ≡ some q) where
  abbrev left : Manager I
  left = record m {
    dispatcher = unsubscribe m.dispatcher id;
    heap = set_elem m.heap a (with_state q unloaded);
    plugins = delete m.plugins id;
    load_order = select (λ s. not (str_eq s id)) m.load_order;
  }

  unload_now_eq : unload_now env m id a w ≡ (none, left, env.close q.instance w)
  unfolding unload_now unload_pointed unload_found
  unload_now_eq = ap (λ o. unload_pointed env m id a o w) at

  left-Unloaded : Distinct m.load_order → contains m.load_order id ≡ true → Unloaded m left id a
  left-Unloaded d listed = record {
    gone = get-delete m.plugins id id ∙ rw (str_eq_self id) refl;
    others = λ j ne. get-delete m.plugins id j ∙ ground (arith, eq_iff id j);
    unordered = select-Without m.load_order id d listed;
    untouched = λ b ne. get_elem?-set_elem m.heap a b _ q at ∙ rw ne refl;
    silent = λ e.
        ap (of_plugin id) (subs_of-unsubscribe m.dispatcher id e)
        ∙ of_plugin-without_plugin id (subs_of m.dispatcher e);
    kept = λ e j ne. (unsubscribe_removes m.dispatcher id j e ne).1;
    state = (with_state q unloaded, get_elem?-set_elem m.heap a a _ q at ∙ ground arith, refl);
  }

  -- The heap keeps the plugins with other IDs.
  left-IsStored :
      (j : String) (b : ℕ)
      → q.info.manifest.id ≡ id
      → id ≢ j
      → IsStored m.heap j b
      → IsStored left.heap j b
  left-IsStored j b named ne s = record {
    plugin = s.plugin;
    at = get_elem?-set_elem m.heap a b _ q at ∙ elim (Bool-cases (a == b)) [
      | inl t ↦ absurd (ne (same m.heap a b q s.plugin (ground arith) at s.at named s.named))
      | inr f ↦ rw f s.at
    ];
    named = s.named;
    settled = s.settled;
  }
    where
      same :
          (h : List (LoadedPlugin I)) (i k : ℕ) (x y : LoadedPlugin I)
          → i ≡ k
          → get_elem? h i ≡ some x
          → get_elem? h k ≡ some y
          → x.info.manifest.id ≡ id
          → y.info.manifest.id ≡ j
          → id ≡ j
      same h i k x y e f g n o = cc

  left-IsConsistent : q.info.manifest.id ≡ id → IsConsistent m → IsConsistent left
  left-IsConsistent named v = record {
    distinct = Distinct-select m.load_order id v.distinct;
    order = λ j.
        contains-select m.load_order id j
        ∙ ground (arith, v.order j, ap is_some (get-delete m.plugins id j), str_eq_sym id j);
    stored = λ j b h. elim (text_cases id j) [
      | inl (t, _) ↦ absurd (deleted j b t h)
      | inr (f, ne) ↦
          left-IsStored j b named ne
            (v.stored j b (sym (get-delete m.plugins id j ∙ rw f refl) ∙ h))
    ];
    linked = λ e.
        subst (All (λ s. is_linked (delete m.plugins id) e s ≡ true))
          (sym (subs_of-unsubscribe m.dispatcher id e))
          (is_linked-delete m.plugins id e (subs_of m.dispatcher e) (v.linked e));
  }
    where
      deleted : (j : String) (b : ℕ) → str_eq id j ≡ true → get (delete m.plugins id) j ≡ some b → ⊥
      deleted j b t h = ground (arith, get-delete m.plugins id j)

pub unload_plugin_missing :
    {I W : Type 0} (env : Wasm I W) (m : Manager I) (id : String) (w : W)
    → find_plugin m id ≡ none
    → (unload_plugin env m id w).1 ≡ m
unfolding unload_plugin unload_entry
unload_plugin_missing env m id w e = ap (λ o. (unload_entry env m id o w).1) e

module _ {I W : Type 0} (env : Wasm I W) (id : String) (a : ℕ) where
  -- Unloading a plugin of a consistent manager, in the second part of `UnloadPlugin`.
  unload_now_removes :
      (m : Manager I) (w : W)
      → IsConsistent m
      → get m.plugins id ≡ some a
      → ((unload_now env m id a w).0 ≡ none)
        × Unloaded m (unload_now env m id a w).1 id a
        × IsConsistent (unload_now env m id a w).1
  unload_now_removes m w v h =
      let s = v.stored id a h in
      let e = unload_now_eq env m id a s.plugin w s.at in
      (
        ap (λ r. r.0) e,
        subst (λ r. Unloaded m r.1 id a) (sym e)
            (left-Unloaded env m id a s.plugin w s.at v.distinct (v.order id ∙ ap is_some h)),
        subst (λ r. IsConsistent r.1) (sym e)
            (left-IsConsistent env m id a s.plugin w s.at s.named v),
      )

  unload_disabled_eq :
      (r : Option PluginError × Manager I × W)
      → r.0 ≡ none
      → unload_disabled env id a r ≡ unload_now env r.1 id a r.2
  unfolding unload_disabled
  unload_disabled_eq (none, m, w) h = refl
  unload_disabled_eq (some err, m, w) h = cc

  Unloaded-from :
      (m m1 m' : Manager I)
      → m1.plugins ≡ m.plugins
      → m1.dispatcher ≡ m.dispatcher
      → m1.load_order ≡ m.load_order
      → ((b : ℕ) → (a == b) ≡ false → get_elem? m1.heap b ≡ get_elem? m.heap b)
      → Unloaded m1 m' id a
      → Unloaded m m' id a
  Unloaded-from m m1 m' same subs ordered frame u = record {
    gone = u.gone;
    others = λ j ne. u.others j ne ∙ ap (λ p. get p j) same;
    unordered =
        let (before, after, old, new) = u.unordered in (before, after, sym ordered ∙ old, new);
    untouched = λ b ne. u.untouched b ne ∙ frame b ne;
    silent = u.silent;
    kept = λ e j ne. u.kept e j ne ∙ ap (λ d. of_plugin j (subs_of d e)) subs;
    state = u.state;
  }

  -- Unloading a plugin that a consistent manager has never fails. The plugin is then unloaded, not
  -- in the map, and without subscriptions; the load order is the old one with that ID taken out; all
  -- other plugins keep their entries in the map, their states and all else that is known of them,
  -- and their subscriptions; and the manager stays consistent.
  pub unload_plugin_removes :
      (m : Manager I) (w : W)
      → IsConsistent m
      → get m.plugins id ≡ some a
      → ((unload_plugin env m id w).0 ≡ none)
        × Unloaded m (unload_plugin env m id w).1 id a
        × IsConsistent (unload_plugin env m id w).1
  unfolding unload_plugin unload_entry find_plugin
  unload_plugin_removes m w v h =
      let s = v.stored id a h in
      rw (h, s.at)
        (elim (Bool-cases (is_enabled s.plugin.info.state)) [
          | inr f ↦ rw f (unload_now_removes m w v h)
          | inl t ↦ rw t (rw (disabled_eq s.plugin s.at) (behind s.plugin s.at))
        ])
    where
      disabled_eq :
          (p : LoadedPlugin I)
          → get_elem? m.heap a ≡ some p
          → unload_disabled env id a (disable_plugin env m id w)
            ≡ unload_now env (disable_plugin env m id w).1 id a (disable_plugin env m id w).2
      disabled_eq p at =
          unload_disabled_eq (disable_plugin env m id w) (disable_plugin_ends env m id a p w h at).0

      behind :
          (p : LoadedPlugin I)
          → get_elem? m.heap a ≡ some p
          → let (_, m1, w1) = disable_plugin env m id w in
            ((unload_now env m1 id a w1).0 ≡ none)
            × Unloaded m (unload_now env m1 id a w1).1 id a
            × IsConsistent (unload_now env m1 id a w1).1
      behind p at =
          let (_, m1, w1) = disable_plugin env m id w in
          let (plugins, dispatcher) = disable_plugin_same env m id a p w h at in
          let (ordered, frame) = disable_plugin_frame env m id a p w h at in
          let (e, u, c) =
            unload_now_removes m1 w1 (disable_plugin-IsConsistent env m id w v)
              (ap (λ x. get x id) plugins ∙ h) in
          (e, Unloaded-from m m1 _ plugins dispatcher ordered frame u, c)
