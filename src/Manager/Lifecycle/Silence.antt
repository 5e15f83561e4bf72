-- ===== src/Manager/Lifecycle/Silence.antt =====
-- What disabling means for the events of a plugin, and closing for the plugins of a manager.
use dragonfly_wasm.Prelude.{
  ℕ, String, ◌≡◌, refl, sym, ◌∙◌, ap, subst, ◌⊎◌, inl, inr, true, false, ◌||◌, none, some, List, [],
  ◌∷◌, ◌==◌, arith, get, contains, is_some, Bool-cases, text_cases,
}
use dragonfly_wasm.Prelude.Heap.{get_elem?, get_elem?-set_elem}
use dragonfly_wasm.Config.{Config}
use dragonfly_wasm.Plugin.State.{is_enabled, disabled}
use dragonfly_wasm.Events.{returned}
use dragonfly_wasm.Manager.Wasm.{Wasm}
use dragonfly_wasm.Manager.Lifecycle.{LoadedPlugin, Manager}
use dragonfly_wasm.Manager.Lifecycle.Handling.{handle, handle_pointed}
use dragonfly_wasm.Manager.Lifecycle.Operations.{
  find_plugin, store_plugin, disable_done, disable_found, disable_entry, disable_plugin,
  disable_each, disable_all, reversed, close,
}
use dragonfly_wasm.Manager.Lifecycle.Consistent.{IsConsistent}
use dragonfly_wasm.Manager.Lifecycle.Switching.{
  found_cases, disable_plugin_ends, disable_plugin_same, disable_plugin-IsConsistent,
}

-- The plugin at `a` is there, and is not enabled.
abbrev pub IsOff : {I : Type 0} → Manager I → ℕ → Type 0
IsOff {I} m a =
    (q : LoadedPlugin I) × (get_elem? m.heap a ≡ some q) × (is_enabled q.info.state ≡ false)

module _ {I W : Type 0} (env : Wasm I W) (m : Manager I) (id : String) where
  -- Disabling changes nothing, or leaves one plugin disabled.
  abbrev Disabled : ℕ → Manager I → Type 0
  Disabled a m' =
      (m' ≡ m) ⊎ ((p' : LoadedPlugin I) × (m' ≡ store_plugin m a p') × (p'.info.state ≡ disabled))

  disable_found-Disabled :
      (a : ℕ) (p : LoadedPlugin I) (w : W) → Disabled a (disable_found env m a p w).1
  unfolding disable_found disable_done
  disable_found-Disabled a p w = elim (Bool-cases (is_enabled p.info.state)) [
    | inr f ↦ rw f (inl refl)
    | inl t ↦ elim (Bool-cases (env.function_exists p.instance "on_disable")) [
      | inl u ↦ rw (t, u) (inr (_, refl, refl))
      | inr h ↦ rw (t, h) (inr (_, refl, refl))
    ]
  ]

  Disabled-IsOff :
      (a b : ℕ) (p : LoadedPlugin I) (m' : Manager I)
      → get_elem? m.heap b ≡ some p
      → Disabled b m'
      → IsOff m a
      → IsOff m' a
  Disabled-IsOff a b p m' at (inl same) off = subst (λ x. IsOff x a) (sym same) off
  Disabled-IsOff a b p m' at (inr (p', same, now_off)) (q, there, q_off) =
      subst (λ x. IsOff x a) (sym same)
        (elim (Bool-cases (b == a)) [
          | inl t ↦ (p', get_elem?-set_elem m.heap b a p' p at ∙ rw t refl, ap is_enabled now_off)
          | inr f ↦ (q, get_elem?-set_elem m.heap b a p' p at ∙ rw f there, q_off)
        ])

  disable_plugin-IsOff : (a : ℕ) (w : W) → IsOff m a → IsOff (disable_plugin env m id w).1 a
  unfolding disable_plugin disable_entry
  disable_plugin-IsOff a w off = elim (found_cases m id) [
    | inl e ↦ rw e off
    | inr (b, p, e, _, at) ↦ rw e (Disabled-IsOff a b p _ at (disable_found-Disabled b p w) off)
  ]

  disable_plugin_plugins : (w : W) → (disable_plugin env m id w).1.plugins ≡ m.plugins
  unfolding disable_plugin disable_entry
  disable_plugin_plugins w = elim (found_cases m id) [
    | inl e ↦ rw e refl
    | inr (b, p, e, there, at) ↦ (disable_plugin_same env m id b p w there at).0
  ]

module _ {I W : Type 0} (env : Wasm I W) (id : String) (a : ℕ) where
  -- The loop turns off the plugins of its list, and turns none on.
  disable_each-IsOff :
      (ids : List String) (m : Manager I) (w : W)
      → IsConsistent m
      → get m.plugins id ≡ some a
      → (contains ids id ≡ true) ⊎ IsOff m a
      → IsOff (disable_each env ids (m, w)).0 a
  unfolding disable_each contains
  disable_each-IsOff [] m w v h (inl listed) = absurd cc
  disable_each-IsOff [] m w v h (inr off) = off
  disable_each-IsOff (j ∷ ids) m w v h k =
      disable_each-IsOff ids (disable_plugin env m j w).1 (disable_plugin env m j w).2
        (disable_plugin-IsConsistent env m j w v)
        (ap (λ p. get p id) (disable_plugin_plugins env m j w) ∙ h) (turn k)
    where
      turned : j ≡ id → IsOff (disable_plugin env m j w).1 a
      turned same =
          let s = v.stored id a h in
          let (_, q, e, off) =
            disable_plugin_ends env m j a s.plugin w (ap (get m.plugins) same ∙ h) s.at in
          (q, e, off)

      turn :
          (contains (j ∷ ids) id ≡ true) ⊎ IsOff m a
          → (contains ids id ≡ true) ⊎ IsOff (disable_plugin env m j w).1 a
      turn (inr off) = inr (disable_plugin-IsOff env m j a w off)
      turn (inl listed) = elim (text_cases j id) [
        | inl (_, same) ↦ inr (turned same)
        | inr (f, _) ↦ inl (ground arith)
      ]

  contains-reversed :
      (l behind : List String)
      → contains (reversed l behind) id ≡ (contains l id || contains behind id)
  unfolding contains
  contains-reversed [] behind = refl
  contains-reversed (x ∷ l) behind = ground (arith, contains-reversed l (x ∷ behind))

  -- Closing a consistent manager empties its map, and leaves none of its plugins enabled, whatever
  -- their callbacks do.
  pub close_disables :
      (m : Manager I) (w : W)
      → IsConsistent m
      → get m.plugins id ≡ some a
      → ((close env m w).0.plugins ≡ []) × IsOff (close env m w).0 a
  unfolding close disable_all
  close_disables m w v h = (
    refl,
    disable_each-IsOff (reversed m.load_order []) (record m { cancelled = true }) w
        (record { distinct = v.distinct; order = v.order; stored = v.stored; linked = v.linked }) h
        (inl listed),
  )
    where
      listed : contains (reversed m.load_order []) id ≡ true
      listed =
          contains-reversed m.load_order []
          ∙ (unfold contains in ground (arith, v.order id, ap is_some h))

module _ {I W : Type 0} (env : Wasm I W) (config : Config) (m : Manager I) (id : String) (a : ℕ)
    (p : LoadedPlugin I) (at : get_elem? m.heap a ≡ some p)
    (on : is_enabled p.info.state ≡ true) where
  abbrev pub DisabledAt : Manager I → Type 0
  DisabledAt m' = (q : LoadedPlugin I) × (get_elem? m'.heap a ≡ some q) × (q.info.state ≡ disabled)

  stored_disabled :
      (p' : LoadedPlugin I) → p'.info.state ≡ disabled → DisabledAt (store_plugin m a p')
  stored_disabled p' h = (p', get_elem?-set_elem m.heap a a p' p at ∙ ground arith, h)

  disable_found-DisabledAt : (w : W) → DisabledAt (disable_found env m a p w).1
  unfolding disable_found disable_done
  disable_found-DisabledAt w = elim (Bool-cases (env.function_exists p.instance "on_disable")) [
    | inl u ↦ rw (on, u) (stored_disabled _ refl)
    | inr h ↦ rw (on, h) (stored_disabled _ refl)
  ]

  disable_plugin-DisabledAt :
      (w : W) → get m.plugins id ≡ some a → DisabledAt (disable_plugin env m id w).1
  unfolding disable_plugin disable_entry find_plugin
  disable_plugin-DisabledAt w there = rw (there, at) (disable_found-DisabledAt w)

  handle-DisabledAt :
      (m' : Manager I) (event : String) (serialized : List ℕ) (w : W)
      → DisabledAt m'
      → handle env config (record { plugin = a; event = event }) serialized (m'.heap, w)
        ≡ (returned none, (m'.heap, w))
  unfolding handle handle_pointed
  handle-DisabledAt m' event serialized w (q, e, s) =
      ap
        (λ o.
          handle_pointed env config (record { plugin = a; event = event }) serialized o
            (m'.heap, w))
        e
      ∙ rw s refl

  -- Once an enabled plugin is disabled, its handlers answer nothing to any event, and do not touch
  -- its instance, its metrics or the rest of the world.
  pub disable_plugin_silences :
      (w : W) (event : String) (serialized : List ℕ)
      → get m.plugins id ≡ some a
      → let (_, m', w') = disable_plugin env m id w in
        handle env config (record { plugin = a; event = event }) serialized (m'.heap, w')
        ≡ (returned none, (m'.heap, w'))
  disable_plugin_silences w event serialized there =
      handle-DisabledAt (disable_plugin env m id w).1 event serialized _
        (disable_plugin-DisabledAt w there)
