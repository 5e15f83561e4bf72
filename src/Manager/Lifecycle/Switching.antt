-- ===== src/Manager/Lifecycle/Switching.antt =====
-- `EnablePlugin` and `DisablePlugin`, and the loops over them.
use dragonfly_wasm.Prelude.{
  ℕ, String, ◌≡◌, refl, sym, ◌∙◌, ap, subst, ◌⊎◌, inl, inr, true, false, not, ◌&&◌, ◌||◌, Option,
  none, some, [], ◌==◌, if◌then◌else◌, arith, get, Bool-cases, Option-cases,
}
use dragonfly_wasm.Prelude.Heap.{get_elem?, get_elem?-set_elem}
use dragonfly_wasm.Plugin.State.{
  State, is_enabled, is_loaded, is_disabled, enabled, disabled, error, enabling, disabling,
}
use dragonfly_wasm.Manager.Wasm.{Wasm}
use dragonfly_wasm.Manager.Lifecycle.{LoadedPlugin, Manager}
use dragonfly_wasm.Manager.Lifecycle.Operations.{
  PluginError, cannot_enable, enable_failed, pointed, pointer, find_plugin, store_plugin,
  with_state, enable_entry, disable_entry, enable_done, enable_called, enable_found, enable_plugin,
  disable_done, disable_found, disable_plugin,
}
use dragonfly_wasm.Manager.Lifecycle.Consistent.{
  is_settled, IsConsistent, store_plugin-IsConsistent,
}

module _ {I : Type 0} (m : Manager I) (id : String) where
  -- Whether a plugin is found, and where.
  pub found_cases :
      (find_plugin m id ≡ none)
      ⊎ ((a : ℕ) × (p : LoadedPlugin I) × (find_plugin m id ≡ some (a, p))
          × (get m.plugins id ≡ some a)
          × (get_elem? m.heap a ≡ some p))
  unfolding find_plugin
  found_cases = elim (Option-cases (get m.plugins id)) [
    | inl e ↦ inl (ap (pointer m.heap) e)
    | inr (a, e) ↦ elim (Option-cases (get_elem? m.heap a)) [
      | inl f ↦ inl (ap (pointer m.heap) e ∙ ap (pointed a) f)
      | inr (p, f) ↦ inr (a, p, ap (pointer m.heap) e ∙ ap (pointed a) f, e, f)
    ]
  ]

module _ {I W : Type 0} (env : Wasm I W) (m : Manager I) (id : String) where
  -- How an operation on the plugin at `a` changes the manager: not at all, or only that plugin,
  -- which keeps its manifest.
  abbrev pub Switched : ℕ → LoadedPlugin I → Manager I → Type 0
  Switched a p m' =
      (m' ≡ m)
      ⊎ ((p' : LoadedPlugin I) × (m' ≡ store_plugin m a p')
          × (p'.info.manifest ≡ p.info.manifest)
          × (is_settled p'.info.state ≡ true))

  enable_called_end :
      (a : ℕ) (p q : LoadedPlugin I) (err : Option String) (w : W)
      → q.info.manifest ≡ p.info.manifest
      → Switched a p (enable_called env m a q err w).1
  unfolding enable_called enable_done
  enable_called_end a p q none w h = inr (_, refl, h, refl)
  enable_called_end a p q (some err) w h = inr (_, refl, h, refl)

  enable_found_end :
      (a : ℕ) (p : LoadedPlugin I) (w : W) → Switched a p (enable_found env m id a p w).1
  unfolding enable_found enable_done
  enable_found_end a p w = elim (Bool-cases (is_enabled p.info.state)) [
    | inl t ↦ rw t (inl refl)
    | inr f ↦ elim (Bool-cases (not (is_loaded p.info.state) && not (is_disabled p.info.state))) [
      | inl t ↦ rw (f, t) (inl refl)
      | inr g ↦ elim (Bool-cases (env.function_exists p.instance "on_enable")) [
        | inl t ↦ rw (f, g, t) (enable_called_end a p (with_state p enabling) _ _ refl)
        | inr h ↦ rw (f, g, h) (inr (_, refl, refl, refl))
      ]
    ]
  ]

  disable_found_end :
      (a : ℕ) (p : LoadedPlugin I) (w : W) → Switched a p (disable_found env m a p w).1
  unfolding disable_found disable_done
  disable_found_end a p w = elim (Bool-cases (is_enabled p.info.state)) [
    | inr f ↦ rw f (inl refl)
    | inl t ↦ elim (Bool-cases (env.function_exists p.instance "on_disable")) [
      | inl u ↦ rw (t, u) (inr (_, refl, refl, refl))
      | inr h ↦ rw (t, h) (inr (_, refl, refl, refl))
    ]
  ]

  Switched-IsConsistent :
      (a : ℕ) (p : LoadedPlugin I) (m' : Manager I)
      → get_elem? m.heap a ≡ some p
      → Switched a p m'
      → IsConsistent m
      → IsConsistent m'
  Switched-IsConsistent a p m' at (inl same) v = subst IsConsistent (sym same) v
  Switched-IsConsistent a p m' at (inr (p', same, named, settled)) v =
      subst IsConsistent (sym same)
        (store_plugin-IsConsistent m a p p' at (ap (λ x. x.id) named) settled v)

  pub enable_plugin-IsConsistent :
      (w : W) → IsConsistent m → IsConsistent (enable_plugin env m id w).1
  unfolding enable_plugin enable_entry
  enable_plugin-IsConsistent w v = elim (found_cases m id) [
    | inl none_there ↦ rw none_there v
    | inr (a, p, there, _, at) ↦
        rw there (Switched-IsConsistent a p _ at (enable_found_end a p w) v)
  ]

  pub disable_plugin-IsConsistent :
      (w : W) → IsConsistent m → IsConsistent (disable_plugin env m id w).1
  unfolding disable_plugin disable_entry
  disable_plugin-IsConsistent w v = elim (found_cases m id) [
    | inl none_there ↦ rw none_there v
    | inr (a, p, there, _, at) ↦
        rw there (Switched-IsConsistent a p _ at (disable_found_end a p w) v)
  ]

  -- The plugin at `a` is in a state.
  abbrev pub InState : Manager I → ℕ → State → Type 0
  InState m' a s = (q : LoadedPlugin I) × (get_elem? m'.heap a ≡ some q) × (q.info.state ≡ s)

  stored_state :
      (a : ℕ) (p p' : LoadedPlugin I)
      → get_elem? m.heap a ≡ some p
      → InState (store_plugin m a p') a p'.info.state
  stored_state a p p' at = (p', get_elem?-set_elem m.heap a a p' p at ∙ ground arith, refl)

  -- What the callback of a plugin answers, if it has one.
  unfoldable pub callback_error : LoadedPlugin I → W → Option String
  callback_error p w =
      if env.function_exists p.instance "on_enable"
      then (env.call p.instance "on_enable" [] w).0.err
      else none

  called-error :
      (p : LoadedPlugin I) (w : W)
      → env.function_exists p.instance "on_enable" ≡ true
      → callback_error p w ≡ (env.call p.instance "on_enable" [] w).0.err
  unfolding callback_error
  called-error p w h = rw h refl

  uncalled-error :
      (p : LoadedPlugin I) (w : W)
      → env.function_exists p.instance "on_enable" ≡ false
      → callback_error p w ≡ none
  unfolding callback_error
  uncalled-error p w h = rw h refl

  abbrev pub CanEnable : LoadedPlugin I → Type 0
  CanEnable p = (is_loaded p.info.state || is_disabled p.info.state) ≡ true

  -- The ends of `EnablePlugin` on a plugin at `a`, by its state and by its callback. Only the plugin
  -- is changed.
  abbrev pub EnableEnd : ℕ → LoadedPlugin I → W → Option PluginError × Manager I × W → Type 0
  EnableEnd a p w r =
      ((p.info.state ≡ enabled) × (r.0 ≡ none) × (r.1 ≡ m) × (r.2 ≡ w))
      ⊎ (CanEnable p
          × (callback_error p w ≡ none)
          × (r.0 ≡ none)
          × InState r.1 a enabled
          × Switched a p r.1)
      ⊎ ((err : String) × CanEnable p
          × (callback_error p w ≡ some err)
          × (r.0 ≡ some (enable_failed err))
          × InState r.1 a error
          × Switched a p r.1)
      ⊎ ((r.0 ≡ some (cannot_enable id p.info.state))
          × (r.1 ≡ m)
          × (r.2 ≡ w)
          × (is_loaded p.info.state ≡ false)
          × (is_disabled p.info.state ≡ false))

  is_enabled-eq : (s : State) → is_enabled s ≡ true → s ≡ enabled
  is_enabled-eq enabled h = refl
  is_enabled-eq State.unloaded h = cc
  is_enabled-eq State.loading h = cc
  is_enabled-eq State.loaded h = cc
  is_enabled-eq enabling h = cc
  is_enabled-eq disabling h = cc
  is_enabled-eq disabled h = cc
  is_enabled-eq error h = cc

  enable_called_ends :
      (a : ℕ) (p q : LoadedPlugin I) (err : Option String) (w w0 : W)
      → get_elem? m.heap a ≡ some p
      → CanEnable p
      → callback_error p w0 ≡ err
      → q.info.manifest ≡ p.info.manifest
      → EnableEnd a p w0 (enable_called env m a q err w)
  unfolding enable_called enable_done
  enable_called_ends a p q none w w0 at can c named =
      inr (inl (can, c, refl, stored_state a p _ at, inr (_, refl, named, refl)))
  enable_called_ends a p q (some err) w w0 at can c named =
      inr (inr (inl (err, can, c, refl, stored_state a p _ at, inr (_, refl, named, refl))))

  enable_found_ends :
      (a : ℕ) (p : LoadedPlugin I) (w : W)
      → get_elem? m.heap a ≡ some p
      → EnableEnd a p w (enable_found env m id a p w)
  unfolding enable_found enable_done
  enable_found_ends a p w at = elim (Bool-cases (is_enabled p.info.state)) [
    | inl t ↦ rw t (inl (is_enabled-eq p.info.state t, refl, refl, refl))
    | inr f ↦ elim (Bool-cases (not (is_loaded p.info.state) && not (is_disabled p.info.state))) [
      | inl t ↦ rw (f, t) (inr (inr (inr (refl, refl, refl, ground arith, ground arith))))
      | inr g ↦ elim (Bool-cases (env.function_exists p.instance "on_enable")) [
        | inl t ↦
            rw (f, g, t)
              (enable_called_ends a p (with_state p enabling) _ _ w at (ground arith)
                (called-error p w t) refl)
        | inr h ↦
            rw (f, g, h)
              (inr (
                inl (
                  ground arith,
                  uncalled-error p w h,
                  refl,
                  stored_state a p _ at,
                  inr (_, refl, refl, refl),
                )))
      ]
    ]
  ]

  -- Enabling a plugin that is there, by its state. If it is enabled, nothing happens. If it is loaded
  -- or disabled, its callback is called where it has one: the plugin is then enabled if there was no
  -- error, and else it is in the error state, and the error is the one of the callback. In any other
  -- state there is an error and nothing is changed. No other plugin is changed, and this one keeps
  -- its manifest.
  pub enable_plugin_ends :
      (a : ℕ) (p : LoadedPlugin I) (w : W)
      → get m.plugins id ≡ some a
      → get_elem? m.heap a ≡ some p
      → EnableEnd a p w (enable_plugin env m id w)
  unfolding enable_plugin enable_entry find_plugin
  enable_plugin_ends a p w there at = rw (there, at) (enable_found_ends a p w at)

  disable_found_ends :
      (a : ℕ) (p : LoadedPlugin I) (w : W)
      → get_elem? m.heap a ≡ some p
      → ((disable_found env m a p w).0 ≡ none)
        × (q : LoadedPlugin I) × (get_elem? (disable_found env m a p w).1.heap a ≡ some q)
        × (is_enabled q.info.state ≡ false)
  unfolding disable_found disable_done stored_state
  disable_found_ends a p w at = elim (Bool-cases (is_enabled p.info.state)) [
    | inr f ↦ rw f (refl, p, at, f)
    | inl t ↦ elim (Bool-cases (env.function_exists p.instance "on_disable")) [
      | inl u ↦ rw (t, u) (refl, _, (stored_state a p _ at).1, refl)
      | inr h ↦ rw (t, h) (refl, _, (stored_state a p _ at).1, refl)
    ]
  ]

  -- Disabling a plugin that is there never fails, whatever its callback does, and leaves it not
  -- enabled.
  pub disable_plugin_ends :
      (a : ℕ) (p : LoadedPlugin I) (w : W)
      → get m.plugins id ≡ some a
      → get_elem? m.heap a ≡ some p
      → ((disable_plugin env m id w).0 ≡ none)
        × (q : LoadedPlugin I) × (get_elem? (disable_plugin env m id w).1.heap a ≡ some q)
        × (is_enabled q.info.state ≡ false)
  unfolding disable_plugin disable_entry find_plugin
  disable_plugin_ends a p w there at = rw (there, at) (disable_found_ends a p w at)

  -- Disabling changes neither the load order nor another plugin.
  pub disable_plugin_frame :
      (a : ℕ) (p : LoadedPlugin I) (w : W)
      → get m.plugins id ≡ some a
      → get_elem? m.heap a ≡ some p
      → ((disable_plugin env m id w).1.load_order ≡ m.load_order)
        × ((b : ℕ)
            → (a == b) ≡ false
            → get_elem? (disable_plugin env m id w).1.heap b ≡ get_elem? m.heap b)
  unfolding disable_plugin disable_entry find_plugin
  disable_plugin_frame a p w there at = rw (there, at) (frame (disable_found_end a p w))
    where
      frame :
          {m' : Manager I}
          → Switched a p m'
          → (m'.load_order ≡ m.load_order)
            × ((b : ℕ) → (a == b) ≡ false → get_elem? m'.heap b ≡ get_elem? m.heap b)
      frame (inl e) = (ap (λ x. x.load_order) e, λ b ne. ap (λ x. get_elem? x.heap b) e)
      frame (inr (p', e, _, _)) = (
        ap (λ x. x.load_order) e,
        λ b ne.
            ap (λ x. get_elem? x.heap b) e ∙ get_elem?-set_elem m.heap a b p' p at ∙ (rw ne refl),
      )

  -- Disabling changes neither the map nor the load order nor the dispatcher.
  pub disable_plugin_same :
      (a : ℕ) (p : LoadedPlugin I) (w : W)
      → get m.plugins id ≡ some a
      → get_elem? m.heap a ≡ some p
      → ((disable_plugin env m id w).1.plugins ≡ m.plugins)
        × ((disable_plugin env m id w).1.dispatcher ≡ m.dispatcher)
  unfolding disable_plugin disable_entry find_plugin
  disable_plugin_same a p w there at = rw (there, at) (same (disable_found_end a p w))
    where
      same :
          {m' : Manager I}
          → Switched a p m'
          → (m'.plugins ≡ m.plugins) × (m'.dispatcher ≡ m.dispatcher)
      same (inl e) = (ap (λ x. x.plugins) e, ap (λ x. x.dispatcher) e)
      same (inr (p', e, _, _)) = (ap (λ x. x.plugins) e, ap (λ x. x.dispatcher) e)
