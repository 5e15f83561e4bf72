-- ===== src/Events/Unsubscribing.antt =====
-- What `Unsubscribe` and `UnsubscribeEvent` remove, and what they leave.
use dragonfly_wasm.Prelude.{
  String, ◌≡◌, refl, sym, ◌∙◌, subst, ap, ◌≢◌, inl, inr, Bool, true, List, [], ◌∷◌, str_eq, eq_iff,
  arith, All, select, if◌then◌else◌, GoMap, get, get-put, value_or, text_cases, Bool-cases,
}
use dragonfly_wasm.Prelude.Int.{ℤ, ◌≤ℤ◌}
use dragonfly_wasm.Prelude.Sorting.{IsSortedBy}
use dragonfly_wasm.Plugin.Manifest.{EventType}
use dragonfly_wasm.Events.{
  Subscription, Dispatcher, subs_of, without_plugin, without_plugin_each, unsubscribe,
  unsubscribe_event,
}
use dragonfly_wasm.Events.Priorities.{IsOrdered, in_range}

module _ {A : Type 0} where
  pub All-select : (P : A → Type 0) (p : A → Bool) (l : List A) → All P l → All P (select p l)
  All-select P p [] h = tt
  All-select P p (x ∷ xs) h = ground (arith, All-select P p xs h.1)

  IsSortedBy-select :
      (key : A → ℤ) (p : A → Bool) (l : List A) → IsSortedBy key l → IsSortedBy key (select p l)
  IsSortedBy-select key p [] h = tt
  IsSortedBy-select key p (x ∷ xs) h = elim (Bool-cases (p x)) [
    | inl e ↦ rw e (All-select (λ y. key x ≤ℤ key y) p xs h.0, IsSortedBy-select key p xs h.1)
    | inr e ↦ rw e (IsSortedBy-select key p xs h.1)
  ]

module _ {H : Type 0} where
  get-without_plugin_each :
      (m : GoMap (List (Subscription H))) (id : String) (e : EventType)
      → value_or (get (without_plugin_each id m) e) [] ≡ without_plugin id (value_or (get m e) [])
  unfolding without_plugin_each get
  get-without_plugin_each [] id e = refl
  get-without_plugin_each ((event, subs) ∷ m) id e = elim (text_cases event e) [
    | inl (t, _) ↦ rw t
    | inr (f, _) ↦ rw f (get-without_plugin_each m id e)
  ]

  pub subs_of-unsubscribe :
      (d : Dispatcher H) (id : String) (e : EventType)
      → subs_of (unsubscribe d id) e ≡ without_plugin id (subs_of d e)
  unfolding unsubscribe
  subs_of-unsubscribe d id e = get-without_plugin_each d.subscriptions id e

  pub subs_of-unsubscribe_event :
      (d : Dispatcher H) (id : String) (event e : EventType)
      → subs_of (unsubscribe_event d id event) e
        ≡ (if str_eq event e then without_plugin id (subs_of d event) else subs_of d e)
  unfolding unsubscribe_event
  subs_of-unsubscribe_event d id event e =
      rw get-put (elim (text_cases event e) [ inl (t, _) ↦ rw t | inr (f, _) ↦ rw f ])

  -- The subscriptions of one plugin.
  abbrev pub of_plugin : String → List (Subscription H) → List (Subscription H)
  of_plugin id = select (λ s. str_eq s.plugin_id id)

  pub of_plugin-without_plugin :
      (id : String) (l : List (Subscription H)) → of_plugin id (without_plugin id l) ≡ []
  of_plugin-without_plugin id [] = refl
  of_plugin-without_plugin id (s ∷ l) = ground (arith, of_plugin-without_plugin id l)

  of_plugin-without_other :
      (id other : String) (l : List (Subscription H))
      → id ≢ other
      → of_plugin other (without_plugin id l) ≡ of_plugin other l
  of_plugin-without_other id other [] ne = refl
  of_plugin-without_other id other (s ∷ l) ne = ground (
    arith,
    of_plugin-without_other id other l ne,
    eq_iff s.plugin_id id,
    eq_iff s.plugin_id other,
  )

  -- `Unsubscribe` leaves no subscription of the plugin to any event, and leaves every other
  -- plugin's subscriptions to each event as they were, in their order.
  pub unsubscribe_removes :
      (d : Dispatcher H) (id other : String) (e : EventType)
      → id ≢ other
      → (of_plugin id (subs_of (unsubscribe d id) e) ≡ [])
        × (of_plugin other (subs_of (unsubscribe d id) e) ≡ of_plugin other (subs_of d e))
  unsubscribe_removes d id other e ne = (
    ap (of_plugin id) (subs_of-unsubscribe d id e) ∙ of_plugin-without_plugin id (subs_of d e),
    ap (of_plugin other) (subs_of-unsubscribe d id e)
        ∙ of_plugin-without_other id other (subs_of d e) ne,
  )

  -- `UnsubscribeEvent` does so for the one event, and leaves the subscriptions to all other events
  -- as they were.
  pub unsubscribe_event_removes :
      (d : Dispatcher H) (id other : String) (event e : EventType)
      → id ≢ other
      → event ≢ e
      → (of_plugin id (subs_of (unsubscribe_event d id event) event) ≡ [])
        × (of_plugin other (subs_of (unsubscribe_event d id event) event)
            ≡ of_plugin other (subs_of d event))
        × (subs_of (unsubscribe_event d id event) e ≡ subs_of d e)
  unsubscribe_event_removes d id other event e ne apart = (
    ap (of_plugin id) here ∙ of_plugin-without_plugin id (subs_of d event),
    ap (of_plugin other) here ∙ of_plugin-without_other id other (subs_of d event) ne,
    subs_of-unsubscribe_event d id event e ∙ ground (arith, eq_iff event e),
  )
    where
      here : subs_of (unsubscribe_event d id event) event ≡ without_plugin id (subs_of d event)
      here = subs_of-unsubscribe_event d id event event ∙ ground (arith, eq_iff event event)

  pub unsubscribe-IsOrdered :
      (d : Dispatcher H) (id : String) → IsOrdered d → IsOrdered (unsubscribe d id)
  unsubscribe-IsOrdered d id v = record {
    within = λ e.
        subst (All (λ s. in_range s.priority ≡ true)) (sym (subs_of-unsubscribe d id e))
          (All-select (λ s. in_range s.priority ≡ true) _ (subs_of d e) (v.within e));
    sorted = λ e.
        subst (IsSortedBy (λ s. s.priority)) (sym (subs_of-unsubscribe d id e))
          (IsSortedBy-select (λ s. s.priority) _ (subs_of d e) (v.sorted e));
  }

  pub unsubscribe_event-IsOrdered :
      (d : Dispatcher H) (id : String) (event : EventType)
      → IsOrdered d
      → IsOrdered (unsubscribe_event d id event)
  unsubscribe_event-IsOrdered d id event v = record {
    within = λ e.
        at_event e (All (λ s. in_range s.priority ≡ true))
          (All-select (λ s. in_range s.priority ≡ true) _ (subs_of d event) (v.within event))
          (v.within e);
    sorted = λ e.
        at_event e (IsSortedBy (λ s. s.priority))
          (IsSortedBy-select (λ s. s.priority) _ (subs_of d event) (v.sorted event)) (v.sorted e);
  }
    where
      at_event :
          (e : EventType) (P : List (Subscription H) → Type 0)
          → P (without_plugin id (subs_of d event))
          → P (subs_of d e)
          → P (subs_of (unsubscribe_event d id event) e)
      at_event e P new old =
          subst P (sym (subs_of-unsubscribe_event d id event e))
            (elim (text_cases event e) [ inl (t, _) ↦ rw t new | inr (f, _) ↦ rw f old ])
