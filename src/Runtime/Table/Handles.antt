-- ===== src/Runtime/Table/Handles.antt =====
-- internal/runtime/runtime.go: pointers to instances that were unloaded.
use dragonfly_wasm.Prelude.{
  ℕ, String, ◌≡◌, refl, sym, ◌∙◌, ap, subst, inl, inr, Bool, true, false, not, ◌&&◌, Option, none,
  some, List, ◌==◌, [], ◌∷◌, ◌++◌, length, arith, if◌then◌else◌, GoMap, get, Bool-cases,
  Option-cases,
}
use dragonfly_wasm.Prelude.Int.{ℤ}
use dragonfly_wasm.Prelude.Heap.{
  get_elem?, set_elem, get_elem?-set_elem, get_elem?-append, get_elem?-length,
}
use dragonfly_wasm.Manager.Wasm.{Wasm, Created, created, refused}
use dragonfly_wasm.Runtime.Instance.{
  PluginInstance, PluginState, unloaded, not_enabled, call, enable, disable, is_state_enabled,
  is_state_loaded,
}
use dragonfly_wasm.Runtime.Instance.Calls.{call-Counts}
use dragonfly_wasm.Runtime.Table.{
  Runtime, Create, ConfigValue, is_state_unloaded, switch_pointed, load_ready, load_verified,
  load_created, load_plugin, shut, unload_found, unload_plugin, put_called, call_pointed,
  call_found, call_plugin, get_instance,
}
use dragonfly_wasm.Runtime.Table.Consistent.{IsTable, some_inj, eq_of_test}
use dragonfly_wasm.Runtime.Table.Steps.{
  Step, loads, unloads, calls, calls_instance, enables, disables, Reach, here, next, enable-open,
  disable-open,
}

-- The instance behind the pointer was unloaded.
abbrev pub IsShut : {I M : Type 0} → ℕ → List (PluginInstance I M) → Type 0
IsShut {I} {M} a heap =
    (p : PluginInstance I M) × (get_elem? heap a ≡ some p) × (is_state_unloaded p.state ≡ true)

module _ {I M : Type 0} (a : ℕ) where
  IsShut-set_elem :
      (heap : List (PluginInstance I M)) (b : ℕ) (p q : PluginInstance I M)
      → get_elem? heap b ≡ some p
      → (is_state_unloaded p.state ≡ true → is_state_unloaded q.state ≡ true)
      → IsShut a heap
      → IsShut a (set_elem heap b q)
  IsShut-set_elem heap b p q e keeps (x, f, s) = elim (Bool-cases (b == a)) [
    | inl t ↦ (q, moved t, keeps (ap (λ y. is_state_unloaded y.state) (same t) ∙ s))
    | inr n ↦ (x, kept n ∙ f, s)
  ]
    where
      moved : (b == a) ≡ true → get_elem? (set_elem heap b q) a ≡ some q
      moved t = get_elem?-set_elem heap b a q p e ∙ ground arith

      same : (b == a) ≡ true → p ≡ x
      same t = some_inj (sym e ∙ ap (get_elem? heap) (eq_of_test b a t) ∙ f)

      kept : (b == a) ≡ false → get_elem? (set_elem heap b q) a ≡ get_elem? heap a
      kept n = get_elem?-set_elem heap b a q p e ∙ ground arith

  IsShut-append :
      (heap : List (PluginInstance I M)) (q : PluginInstance I M)
      → IsShut a heap
      → IsShut a (heap ++ q ∷ [])
  IsShut-append heap q (x, f, s) = (x, get_elem?-append heap q a ∙ old (length heap == a) refl, s)
    where
      old :
          (b : Bool)
          → (length heap == a) ≡ b
          → (if length heap == a then some q else get_elem? heap a) ≡ some x
      old true t =
          absurd (cc (sym (get_elem?-length heap) ∙ ap (get_elem? heap) (eq_of_test _ _ t) ∙ f))
      old false n = rw n f

module _ {I M W : Type 0} (env : Wasm I W) (a : ℕ) where
  load_verified-IsShut :
      (r : Runtime I M) (id : String) (manifest : M) (plugin : I) (o : Option String) (w : W)
      → IsShut a r.heap
      → IsShut a (load_verified env r id manifest plugin o w).1.heap
  unfolding load_verified load_ready
  load_verified-IsShut r id manifest plugin (some export) w s = s
  load_verified-IsShut r id manifest plugin none w s = IsShut-append a r.heap _ s

  load_created-IsShut :
      (r : Runtime I M) (id : String) (manifest : M) (c : Created I × W)
      → IsShut a r.heap
      → IsShut a (load_created env r id manifest c).1.heap
  unfolding load_created
  load_created-IsShut r id manifest (refused e, w) s = s
  load_created-IsShut r id manifest (created plugin, w) s =
      load_verified-IsShut r id manifest plugin _ w s

  load_plugin-IsShut :
      (create : Create I W) (r : Runtime I M) (id : String) (manifest : M)
      (config : GoMap ConfigValue) (path : String) (w : W)
      → IsShut a r.heap
      → IsShut a (load_plugin env create r id manifest config path w).1.heap
  unfolding load_plugin
  load_plugin-IsShut create r id manifest config path w s =
      elim (Option-cases (get r.instances id)) [
        | inl e ↦ rw e (load_created-IsShut r id manifest _ s)
        | inr (b, e) ↦ rw e s
      ]

  shut-IsShut :
      (b : ℕ) (o : Option (PluginInstance I M)) (r : Runtime I M) (w : W)
      → get_elem? r.heap b ≡ o
      → IsShut a r.heap
      → IsShut a (shut env b o r w).0.heap
  unfolding shut
  shut-IsShut b none r w e s = s
  shut-IsShut b (some p) r w e s =
      IsShut-set_elem a r.heap b p (record p { state = unloaded }) e (λ h. refl) s

  unload_found-IsShut :
      (id : String) (o : Option ℕ) (r : Runtime I M) (w : W)
      → IsShut a r.heap
      → IsShut a (unload_found env id o r w).1.heap
  unfolding unload_found
  unload_found-IsShut id none r w s = s
  unload_found-IsShut id (some b) r w s = shut-IsShut b (get_elem? r.heap b) r w refl s

  call_pointed-IsShut :
      (b : ℕ) (o : Option (PluginInstance I M)) (function : String) (input : List ℕ) (timeout : ℤ)
      (r : Runtime I M) (w : W)
      → get_elem? r.heap b ≡ o
      → IsShut a r.heap
      → IsShut a (call_pointed env b o function input timeout r w).1.heap
  unfolding call_pointed put_called
  call_pointed-IsShut b none function input timeout r w e s = s
  call_pointed-IsShut b (some p) function input timeout r w e s =
      IsShut-set_elem a r.heap b p (call env p function input timeout w).1 e
        (λ h. ap is_state_unloaded (call-Counts env p function input timeout w).0.state ∙ h) s

  call_found-IsShut :
      (o : Option ℕ) (function : String) (input : List ℕ) (r : Runtime I M) (w : W)
      → IsShut a r.heap
      → IsShut a (call_found env o function input r w).1.heap
  unfolding call_found
  call_found-IsShut none function input r w s = s
  call_found-IsShut (some b) function input r w s =
      call_pointed-IsShut b (get_elem? r.heap b) function input r.config.event_timeout r w refl s

module _ {I M : Type 0} (a : ℕ) where
  switch_pointed-IsShut :
      (b : ℕ) (switch : PluginInstance I M → PluginInstance I M) (o : Option (PluginInstance I M))
      (r : Runtime I M)
      → ((p : PluginInstance I M) → is_state_unloaded (switch p).state ≡ is_state_unloaded p.state)
      → get_elem? r.heap b ≡ o
      → IsShut a r.heap
      → IsShut a (switch_pointed b switch o r).heap
  unfolding switch_pointed
  switch_pointed-IsShut b switch none r same e s = s
  switch_pointed-IsShut b switch (some p) r same e s =
      IsShut-set_elem a r.heap b p (switch p) e (λ h. same p ∙ h) s

module _ {I M W : Type 0} (env : Wasm I W) (create : Create I W) (a : ℕ) where
  Step-IsShut : {t u : Runtime I M} → Step env create t u → IsShut a t.heap → IsShut a u.heap
  unfolding unload_plugin call_plugin
  Step-IsShut (loads r id manifest config path w) s =
      load_plugin-IsShut env a create r id manifest config path w s
  Step-IsShut (unloads r id w) s = unload_found-IsShut env a id _ r w s
  Step-IsShut (calls r id function input w) s = call_found-IsShut env a _ function input r w s
  Step-IsShut (calls_instance r b function input timeout w) s =
      call_pointed-IsShut env a b _ function input timeout r w refl s
  Step-IsShut (enables r b) s = switch_pointed-IsShut a b enable _ r enable-open refl s
  Step-IsShut (disables r b) s = switch_pointed-IsShut a b disable _ r disable-open refl s

  Reach-IsShut : {t u : Runtime I M} → IsShut a t.heap → Reach env create t u → IsShut a u.heap
  Reach-IsShut s here = s
  Reach-IsShut s (next r step) = Step-IsShut step (Reach-IsShut s r)

  shut_call :
      (p : PluginInstance I M) (function : String) (input : List ℕ) (timeout : ℤ) (w : W)
      → is_state_unloaded p.state ≡ true
      → call env p function input timeout w ≡ (not_enabled, p, w)
  unfolding call
  shut_call p function input timeout w h = rw (off p.state h) refl
    where
      off :
          (s : PluginState)
          → is_state_unloaded s ≡ true
          → (not (is_state_enabled s) && not (is_state_loaded s)) ≡ true
      off s h = ground arith

  unloaded_shut :
      (o : Option (PluginInstance I M)) (r : Runtime I M) (w : W) (p : PluginInstance I M)
      → o ≡ some p
      → get_elem? r.heap a ≡ some p
      → IsShut a (shut env a o r w).0.heap
  unfolding shut
  unloaded_shut none r w p e f = absurd cc
  unloaded_shut (some q) r w p e f = (
    record q { state = unloaded },
    get_elem?-set_elem r.heap a a (record q { state = unloaded }) p f ∙ ground arith,
    refl,
  )

  unload_found-shuts :
      (id : String) (r : Runtime I M) (w : W) (p : PluginInstance I M)
      → get_elem? r.heap a ≡ some p
      → IsShut a (unload_found env id (some a) r w).1.heap
  unfolding unload_found
  unload_found-shuts id r w p f = unloaded_shut (get_elem? r.heap a) r w p f f

  unload_plugin-shuts :
      (id : String) (r : Runtime I M) (w : W)
      → IsTable r
      → get_instance id r ≡ some a
      → IsShut a (unload_plugin env id r w).1.heap
  unfolding unload_plugin
  unload_plugin-shuts id r w v found =
      let (p, f, _, _) = v.linked id a found in
      subst (λ o. IsShut a (unload_found env id o r w).1.heap) (sym found)
        (unload_found-shuts id r w p f)

  call_shut :
      (o : Option (PluginInstance I M)) (r : Runtime I M) (w : W) (p : PluginInstance I M)
      (function : String) (input : List ℕ) (timeout : ℤ)
      → o ≡ some p
      → is_state_unloaded p.state ≡ true
      → let out = call_pointed env a o function input timeout r w in
        (out.0 ≡ not_enabled) × (out.2 ≡ w)
  unfolding call_pointed put_called
  call_shut none r w p function input timeout e h = absurd cc
  call_shut (some q) r w p function input timeout e h =
      rw
        (shut_call q function input timeout w
          (ap (λ x. is_state_unloaded x.state) (some_inj e) ∙ h))
        ((refl, refl))

  -- After an ID was unloaded from a consistent table, and after any further operations, a call by a
  -- pointer to the unloaded instance answers that it is not enabled, and touches neither the
  -- instance of extism nor anything else outside the runtime.
  pub unload-silences :
      (id : String) (r : Runtime I M) (w : W) (r' : Runtime I M) (w' : W) (function : String)
      (input : List ℕ) (timeout : ℤ)
      → IsTable r
      → get_instance id r ≡ some a
      → Reach env create (unload_plugin env id r w).1 r'
      → let out = call_pointed env a (get_elem? r'.heap a) function input timeout r' w' in
        (out.0 ≡ not_enabled) × (out.2 ≡ w')
  unload-silences id r w r' w' function input timeout v found steps =
      let (q, g, t) = Reach-IsShut (unload_plugin-shuts id r w v found) steps in
      call_shut (get_elem? r'.heap a) r' w' q function input timeout g t
