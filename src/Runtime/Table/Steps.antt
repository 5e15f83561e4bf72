-- ===== src/Runtime/Table/Steps.antt =====
-- internal/runtime/runtime.go: the table after any sequence of operations, those on pointers to
-- instances that were given out among them.
use dragonfly_wasm.Prelude.{
  ℕ, String, ◌≡◌, refl, sym, ◌∙◌, ap, inl, inr, true, false, Option, none, some, List, [], ◌∷◌,
  ◌++◌, length, ◌==◌, arith, if◌then◌else◌, GoMap, get, put, get-put, put-Distinct, str_eq, eq_iff,
  text_cases, Bool-cases, Option-cases,
}
use dragonfly_wasm.Prelude.Int.{ℤ}
use dragonfly_wasm.Prelude.Heap.{get_elem?, get_elem?-append, get_elem?-length}
use dragonfly_wasm.Config.{RuntimeConfig}
use dragonfly_wasm.Manager.Wasm.{Wasm, Created, created, refused}
use dragonfly_wasm.Runtime.Instance.{PluginInstance, call, enable, disable}
use dragonfly_wasm.Runtime.Instance.Calls.{call-Counts, call-id}
use dragonfly_wasm.Runtime.Table.{
  Runtime, new_runtime, ConfigValue, Create, is_state_unloaded, switch_pointed, load_ready,
  load_verified, load_created, load_plugin, shut, unload_found, unload_plugin, put_called,
  call_pointed, call_found, call_plugin,
}
use dragonfly_wasm.Runtime.Table.Consistent.{
  IsOpen, IsTable, some_inj, eq_of_test, set_elem-IsTable, unloaded-IsTable,
}

module _ {I M : Type 0} where
  -- A new instance for an ID that the table does not have.
  added-IsTable :
      (r : Runtime I M) (p : PluginInstance I M)
      → get r.instances p.id ≡ none
      → IsOpen p
      → IsTable r
      → IsTable
          (record r { instances = put r.instances p.id (length r.heap); heap = r.heap ++ p ∷ [] })
  added-IsTable r p fresh is_open v = record {
    distinct = put-Distinct r.instances p.id (length r.heap) v.distinct;
    linked = λ k b h. elim (text_cases p.id k) [
      | inl (t, same) ↦ (p, new_at b (new_address k b t h), same, is_open)
      | inr (f, _) ↦
          let (x, g, named, o) = v.linked k b (old_entry k b f h) in
          (x, get_elem?-append r.heap p b ∙ old_at b x (old_address b x g) g, named, o)
    ];
    listed = λ b x h o. elim (Bool-cases (length r.heap == b)) [
      | inl t ↦ is_new b x (some_inj (sym (new_at b (eq_of_test _ _ t)) ∙ h)) (eq_of_test _ _ t)
      | inr n ↦ old_listed b x (v.listed b x (sym (read_old b n) ∙ h) o)
    ];
  }
    where
      new_address :
          (k : String) (b : ℕ)
          → str_eq p.id k ≡ true
          → get (put r.instances p.id (length r.heap)) k ≡ some b
          → length r.heap ≡ b
      new_address k b t h = ground (arith, get-put r.instances p.id k (length r.heap))

      old_entry :
          (k : String) (b : ℕ)
          → str_eq p.id k ≡ false
          → get (put r.instances p.id (length r.heap)) k ≡ some b
          → get r.instances k ≡ some b
      old_entry k b f h = ground (arith, get-put r.instances p.id k (length r.heap))

      new_at : (b : ℕ) → length r.heap ≡ b → get_elem? (r.heap ++ p ∷ []) b ≡ some p
      new_at b e = get_elem?-append r.heap p b ∙ ground arith

      old_address :
          (b : ℕ) (x : PluginInstance I M)
          → get_elem? r.heap b ≡ some x
          → (length r.heap == b) ≡ false
      old_address b x g = elim (Bool-cases (length r.heap == b)) [
        | inr n ↦ n
        | inl t ↦
            absurd
              (cc (sym (get_elem?-length r.heap) ∙ ap (get_elem? r.heap) (eq_of_test _ _ t) ∙ g))
      ]

      old_at :
          (b : ℕ) (x : PluginInstance I M)
          → (length r.heap == b) ≡ false
          → get_elem? r.heap b ≡ some x
          → (if length r.heap == b then some p else get_elem? r.heap b) ≡ some x
      old_at b x n g = ground arith

      read_old :
          (b : ℕ)
          → (length r.heap == b) ≡ false
          → get_elem? (r.heap ++ p ∷ []) b ≡ get_elem? r.heap b
      read_old b n = get_elem?-append r.heap p b ∙ ground arith

      is_new :
          (b : ℕ) (x : PluginInstance I M)
          → p ≡ x
          → length r.heap ≡ b
          → get (put r.instances p.id (length r.heap)) x.id ≡ some b
      is_new b x e same =
          ap (get (put r.instances p.id (length r.heap))) (ap (λ y. y.id) (sym e))
          ∙ get-put r.instances p.id p.id (length r.heap)
          ∙ ground (arith, eq_iff p.id p.id)

      old_listed :
          (b : ℕ) (x : PluginInstance I M)
          → get r.instances x.id ≡ some b
          → get (put r.instances p.id (length r.heap)) x.id ≡ some b
      old_listed b x h = elim (text_cases p.id x.id) [
        | inl (t, same) ↦ absurd (cc (sym fresh ∙ ap (get r.instances) same ∙ h))
        | inr (f, _) ↦ ground (arith, get-put r.instances p.id x.id (length r.heap))
      ]

module _ {I M W : Type 0} (env : Wasm I W) where
  load_verified-IsTable :
      (r : Runtime I M) (id : String) (manifest : M) (plugin : I) (o : Option String) (w : W)
      → get r.instances id ≡ none
      → IsTable r
      → IsTable (load_verified env r id manifest plugin o w).1
  unfolding load_verified load_ready
  load_verified-IsTable r id manifest plugin (some export) w fresh v = v
  load_verified-IsTable r id manifest plugin none w fresh v = added-IsTable r _ fresh refl v

  load_created-IsTable :
      (r : Runtime I M) (id : String) (manifest : M) (c : Created I × W)
      → get r.instances id ≡ none
      → IsTable r
      → IsTable (load_created env r id manifest c).1
  unfolding load_created
  load_created-IsTable r id manifest (refused e, w) fresh v = v
  load_created-IsTable r id manifest (created plugin, w) fresh v =
      load_verified-IsTable r id manifest plugin _ w fresh v

  load_plugin-IsTable :
      (create : Create I W) (r : Runtime I M) (id : String) (manifest : M)
      (config : GoMap ConfigValue) (path : String) (w : W)
      → IsTable r
      → IsTable (load_plugin env create r id manifest config path w).1
  unfolding load_plugin
  load_plugin-IsTable create r id manifest config path w v =
      elim (Option-cases (get r.instances id)) [
        | inl e ↦ rw e (load_created-IsTable r id manifest _ e v)
        | inr (a, e) ↦ rw e v
      ]

  unload_found-IsTable :
      (r : Runtime I M) (id : String) (o : Option ℕ) (w : W)
      → get r.instances id ≡ o
      → IsTable r
      → IsTable (unload_found env id o r w).1
  unfolding unload_found shut
  unload_found-IsTable r id none w e v = v
  unload_found-IsTable r id (some a) w e v =
      let (p, f, _, _) = v.linked id a e in rw f (unloaded-IsTable r id a p e f v)

  call_pointed-IsTable :
      (r : Runtime I M) (a : ℕ) (o : Option (PluginInstance I M)) (function : String)
      (input : List ℕ) (timeout : ℤ) (w : W)
      → get_elem? r.heap a ≡ o
      → IsTable r
      → IsTable (call_pointed env a o function input timeout r w).1
  unfolding call_pointed put_called
  call_pointed-IsTable r a none function input timeout w e v = v
  call_pointed-IsTable r a (some p) function input timeout w e v =
      set_elem-IsTable r a p (call env p function input timeout w).1 e
        (call-id env p function input timeout w)
        (ap is_state_unloaded (call-Counts env p function input timeout w).0.state) v

  call_found-IsTable :
      (r : Runtime I M) (o : Option ℕ) (function : String) (input : List ℕ) (w : W)
      → IsTable r
      → IsTable (call_found env o function input r w).1
  unfolding call_found
  call_found-IsTable r none function input w v = v
  call_found-IsTable r (some a) function input w v =
      call_pointed-IsTable r a (get_elem? r.heap a) function input r.config.event_timeout w refl v

module _ {I M : Type 0} where
  pub enable-open :
      (p : PluginInstance I M) → is_state_unloaded (enable p).state ≡ is_state_unloaded p.state
  unfolding enable
  enable-open p = ground arith

  pub disable-open :
      (p : PluginInstance I M) → is_state_unloaded (disable p).state ≡ is_state_unloaded p.state
  unfolding disable
  disable-open p = ground arith

  enable-id : (p : PluginInstance I M) → (enable p).id ≡ p.id
  unfolding enable
  enable-id p = ground arith

  disable-id : (p : PluginInstance I M) → (disable p).id ≡ p.id
  unfolding disable
  disable-id p = ground arith

  switch_pointed-IsTable :
      (r : Runtime I M) (a : ℕ) (switch : PluginInstance I M → PluginInstance I M)
      (o : Option (PluginInstance I M))
      → ((p : PluginInstance I M) → (switch p).id ≡ p.id)
      → ((p : PluginInstance I M) → is_state_unloaded (switch p).state ≡ is_state_unloaded p.state)
      → get_elem? r.heap a ≡ o
      → IsTable r
      → IsTable (switch_pointed a switch o r)
  unfolding switch_pointed
  switch_pointed-IsTable r a switch none same open_ e v = v
  switch_pointed-IsTable r a switch (some p) same open_ e v =
      set_elem-IsTable r a p (switch p) e (same p) (open_ p) v

module _ {I M W : Type 0} (env : Wasm I W) (create : Create I W) where
  -- One operation of the runtime, or one on an instance by a pointer that was given out; `Close`
  -- is treated by itself.
  pub data Step : Runtime I M → Runtime I M → Type 0 where
    loads :
        (r : Runtime I M) (id : String) (manifest : M) (config : GoMap ConfigValue) (path : String)
        (w : W)
        → Step r (load_plugin env create r id manifest config path w).1
    unloads : (r : Runtime I M) (id : String) (w : W) → Step r (unload_plugin env id r w).1
    calls :
        (r : Runtime I M) (id function : String) (input : List ℕ) (w : W)
        → Step r (call_plugin env id function input r w).1
    calls_instance :
        (r : Runtime I M) (a : ℕ) (function : String) (input : List ℕ) (timeout : ℤ) (w : W)
        → Step r (call_pointed env a (get_elem? r.heap a) function input timeout r w).1
    enables : (r : Runtime I M) (a : ℕ) → Step r (switch_pointed a enable (get_elem? r.heap a) r)
    disables : (r : Runtime I M) (a : ℕ) → Step r (switch_pointed a disable (get_elem? r.heap a) r)

  pub data Reach (r : Runtime I M) : Runtime I M → Type 0 where
    here : Reach r r
    next : {t u : Runtime I M} → Reach r t → Step t u → Reach r u

  Step-IsTable : {t u : Runtime I M} → Step t u → IsTable t → IsTable u
  unfolding unload_plugin call_plugin
  Step-IsTable (loads r id manifest config path w) v =
      load_plugin-IsTable env create r id manifest config path w v
  Step-IsTable (unloads r id w) v = unload_found-IsTable env r id _ w refl v
  Step-IsTable (calls r id function input w) v = call_found-IsTable env r _ function input w v
  Step-IsTable (calls_instance r a function input timeout w) v =
      call_pointed-IsTable env r a _ function input timeout w refl v
  Step-IsTable (enables r a) v = switch_pointed-IsTable r a enable _ enable-id enable-open refl v
  Step-IsTable (disables r a) v =
      switch_pointed-IsTable r a disable _ disable-id disable-open refl v

  -- After any sequence of loading, unloading and calling plugins, and of calls, `Enable` and
  -- `Disable` by any pointer, from a new runtime: the table lists each ID once, each entry points to
  -- an instance with that ID that was not unloaded, and every such instance has its entry.
  pub Reach-IsTable :
      {cfg : RuntimeConfig} {r : Runtime I M} → Reach (new_runtime cfg) r → IsTable r
  unfolding get get_elem?
  Reach-IsTable here = record { distinct = tt; linked = λ id a h. cc; listed = λ a p h o. cc }
  Reach-IsTable (next r s) = Step-IsTable s (Reach-IsTable r)
