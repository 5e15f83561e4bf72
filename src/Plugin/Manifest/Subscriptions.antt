-- ===== src/Plugin/Manifest/Subscriptions.antt =====
-- `Manifest.SubscribedTo` and `Manifest.GetEventPriority` read the first entry for an event.
use dragonfly_wasm.Prelude.{
  ◌≡◌, refl, ◌⊎◌, inl, inr, true, false, List, [], ◌∷◌, ◌++◌, str_eq, All, text_cases, ap,
}
use dragonfly_wasm.Plugin.Manifest.{
  EventType, EventSubscription, Manifest, priority_normal, subscribed_in, subscribed_to,
  priority_in, get_event_priority,
}

-- The entry `e` names the event, and no entry before it does.
abbrev pub FirstEntry : List EventSubscription → EventType → EventSubscription → Type 0
FirstEntry es event e =
    (before : List EventSubscription) × (after : List EventSubscription) × (es
      ≡ before ++ e ∷ after)
    × (e.event ≡ event)
    × All (λ x. str_eq x.event event ≡ false) before

first_entry :
    (es : List EventSubscription) (event : EventType)
    → ((e : EventSubscription) × FirstEntry es event e
        × (subscribed_in es event ≡ true)
        × (priority_in es event ≡ e.priority))
      ⊎ (All (λ x. str_eq x.event event ≡ false) es
          × (subscribed_in es event ≡ false)
          × (priority_in es event ≡ priority_normal))
unfolding subscribed_in priority_in
first_entry [] event = inr (tt, refl, refl)
first_entry (e ∷ es) event = elim (text_cases e.event event) [
  | inl (t, same) ↦ inl (e, ([], es, refl, same, tt), rw t, rw t)
  | inr (f, _) ↦ elim (first_entry es event) [
    | inl (x, (before, after, split, named, none_before), sub, prio) ↦
        inl (x, (e ∷ before, after, ap (◌∷◌ e) split, named, (f, none_before)), rw f sub, rw f prio)
    | inr (absent, sub, prio) ↦ inr ((f, absent), rw f sub, rw f prio)
  ]
]

-- Either the manifest is subscribed to the event, and its priority is that of the first entry that
-- names it, or it is not subscribed, no entry names it, and the priority is the normal one.
pub subscribed_to-get_event_priority :
    (m : Manifest) (event : EventType)
    → ((e : EventSubscription) × FirstEntry m.events event e
        × (subscribed_to m event ≡ true)
        × (get_event_priority m event ≡ e.priority))
      ⊎ (All (λ e. str_eq e.event event ≡ false) m.events
          × (subscribed_to m event ≡ false)
          × (get_event_priority m event ≡ priority_normal))
unfolding subscribed_to get_event_priority
subscribed_to-get_event_priority m event = first_entry m.events event
