-- ===== src/Events/Counters.antt =====
-- The dispatcher's counters, and what holds after any sequence of operations.
use dragonfly_wasm.Prelude.{
  ℕ, ◌+◌, ◌≤◌, ◌<◌, String, ◌≡◌, refl, sym, ap, subst, Bool, true, ◌&&◌, List, [], ◌∷◌, str_eq,
  eq_iff, arith, ltb, length, All, if◌then◌else◌, GoMap, get, value_or,
}
use dragonfly_wasm.Prelude.Int.{ℤ, int_mod}
use dragonfly_wasm.Prelude.Sorting.{Sorter, IsSortedBy}
use dragonfly_wasm.Plugin.Manifest.{EventType}
use dragonfly_wasm.Plugin.Metrics.{incr}
use dragonfly_wasm.Plugin.Metrics.Counts.{count_of, count_of-bump}
use dragonfly_wasm.Events.{
  Subscription, Dispatcher, HandlerReturn, new_dispatcher, subs_of, subscribe, unsubscribe,
  unsubscribe_event, has_subscribers, dispatch, dispatch_to, reset_metrics,
}
use dragonfly_wasm.Events.Priorities.{IsOrdered, in_range, subscribe_keeps-IsOrdered}
use dragonfly_wasm.Events.Unsubscribing.{unsubscribe-IsOrdered, unsubscribe_event-IsOrdered}

module _ {H W : Type 0} (invoke : H → List ℕ → W → HandlerReturn × W) where
  -- The counter of an event after a dispatch.
  abbrev counted : Bool → ℕ → ℕ
  counted b n = if b then incr n else n

  dispatch_to_counts :
      (subs : List (Subscription H)) (d : Dispatcher H) (event other : EventType)
      (serialized : List ℕ) (elapsed : ℤ) (w : W)
      → let (r, d', w') = dispatch_to invoke subs d event serialized elapsed w in
        (d'.subscriptions ≡ d.subscriptions)
        × (count_of d'.event_count other
            ≡ counted (ltb 0 (length subs) && str_eq event other) (count_of d.event_count other))
        × (count_of d'.cancel_count other
            ≡ counted (r.cancelled && str_eq event other) (count_of d.cancel_count other))
  unfolding dispatch_to
  dispatch_to_counts [] d event other serialized elapsed w = (refl, refl, refl)
  dispatch_to_counts (sub ∷ subs) d event other serialized elapsed w = (
    refl,
    ground (arith, count_of-bump d.event_count event other, eq_iff event other),
    ground (arith, count_of-bump d.cancel_count event other, eq_iff event other),
  )

  -- A dispatch changes no subscription. It counts the event if it has subscribers, and the
  -- cancellation if the result is cancelled (modulo 2^64), and no other event.
  pub dispatch_counts :
      (d : Dispatcher H) (event other : EventType) (serialized : List ℕ) (elapsed : ℤ) (w : W)
      → let (r, d', w') = dispatch invoke d event serialized elapsed w in
        (d'.subscriptions ≡ d.subscriptions)
        × (count_of d'.event_count other ≡ (
            if has_subscribers d event && str_eq event other
            then incr (count_of d.event_count other)
            else count_of d.event_count other))
        × (count_of d'.cancel_count other ≡ (
            if r.cancelled && str_eq event other
            then incr (count_of d.cancel_count other)
            else count_of d.cancel_count other))
  unfolding dispatch has_subscribers
  dispatch_counts d event other serialized elapsed w =
      dispatch_to_counts (subs_of d event) d event other serialized elapsed w

-- A dispatch to no subscriber cancels nothing.
cancelled_nil :
    {H W : Type 0} (invoke : H → List ℕ → W → HandlerReturn × W) (subs : List (Subscription H))
    (d : Dispatcher H) (event : EventType) (serialized : List ℕ) (elapsed : ℤ) (w : W)
    → (dispatch_to invoke subs d event serialized elapsed w).0.cancelled ≡ true
    → ltb 0 (length subs) ≡ true
unfolding dispatch_to
cancelled_nil invoke [] d event serialized elapsed w h = cc
cancelled_nil invoke (sub ∷ subs) d event serialized elapsed w h = ground arith

-- What the server keeps of a dispatcher between operations.
pub record Inv {H : Type 0} (d : Dispatcher H) : Type 0 where
  pub ordered : IsOrdered d
  pub cancelled_le : (e : EventType) → count_of d.cancel_count e ≤ count_of d.event_count e

-- The operations that change a dispatcher. A dispatch is one of an event whose counter has room.
pub data Step {H : Type 0} (sorter : Sorter (Subscription H))
    : Dispatcher H → Dispatcher H → Type 1 where
  subscribes :
      (d : Dispatcher H) (event : EventType) (sub : Subscription H)
      → in_range sub.priority ≡ true
      → Step sorter d (subscribe sorter d event sub)
  unsubscribes : (d : Dispatcher H) (id : String) → Step sorter d (unsubscribe d id)
  unsubscribes_event :
      (d : Dispatcher H) (id : String) (event : EventType)
      → Step sorter d (unsubscribe_event d id event)
  dispatches :
      (W : Type 0) (invoke : H → List ℕ → W → HandlerReturn × W) (d : Dispatcher H)
      (event : EventType) (serialized : List ℕ) (elapsed : ℤ) (w : W)
      → count_of d.event_count event + 1 < int_mod
      → Step sorter d (dispatch invoke d event serialized elapsed w).1
  resets : (d : Dispatcher H) → Step sorter d (reset_metrics d)

pub data Reach {H : Type 0} (sorter : Sorter (Subscription H)) (d : Dispatcher H)
    : Dispatcher H → Type 1 where
  here : Reach sorter d d
  next : {t u : Dispatcher H} → Reach sorter d t → Step sorter t u → Reach sorter d u

IsOrdered-subscriptions :
    {H : Type 0} {d d' : Dispatcher H}
    → d'.subscriptions ≡ d.subscriptions
    → IsOrdered d
    → IsOrdered d'
IsOrdered-subscriptions {H} e v = record {
  within = λ x. subst (All (λ s. in_range s.priority ≡ true)) (sym (ap (at x) e)) (v.within x);
  sorted = λ x. subst (IsSortedBy (λ s. s.priority)) (sym (ap (at x) e)) (v.sorted x);
}
  where
    at : EventType → GoMap (List (Subscription H)) → List (Subscription H)
    at x m = value_or (get m x) []

dispatch_cancelled_le :
    {H W : Type 0} (invoke : H → List ℕ → W → HandlerReturn × W) (d : Dispatcher H)
    (event e : EventType) (serialized : List ℕ) (elapsed : ℤ) (w : W)
    → ((x : EventType) → count_of d.cancel_count x ≤ count_of d.event_count x)
    → count_of d.event_count event + 1 < int_mod
    → let d' = (dispatch invoke d event serialized elapsed w).1 in
      count_of d'.cancel_count e ≤ count_of d'.event_count e
unfolding dispatch
dispatch_cancelled_le invoke d event e serialized elapsed w le room =
    let subs = subs_of d event in
    let (_, events, cancels) = dispatch_to_counts invoke subs d event e serialized elapsed w in
    ground (
      arith,
      events,
      cancels,
      cancelled_nil invoke subs d event serialized elapsed w,
      le e,
      le event,
      eq_iff event e,
    )

Step-Inv :
    {H : Type 0} {sorter : Sorter (Subscription H)} {t u : Dispatcher H}
    → Step sorter t u
    → Inv t
    → Inv u
unfolding subscribe unsubscribe unsubscribe_event reset_metrics get
Step-Inv {sorter = sorter} (subscribes d event sub h) v = record {
  ordered = subscribe_keeps-IsOrdered sorter d event sub v.ordered h;
  cancelled_le = v.cancelled_le;
}
Step-Inv (unsubscribes d id) v = record {
  ordered = unsubscribe-IsOrdered d id v.ordered;
  cancelled_le = v.cancelled_le;
}
Step-Inv (unsubscribes_event d id event) v = record {
  ordered = unsubscribe_event-IsOrdered d id event v.ordered;
  cancelled_le = v.cancelled_le;
}
Step-Inv (dispatches W invoke d event serialized elapsed w room) v =
    let (same, _, _) = dispatch_counts invoke d event event serialized elapsed w in
    record {
      ordered = IsOrdered-subscriptions same v.ordered;
      cancelled_le =
          λ e. dispatch_cancelled_le invoke d event e serialized elapsed w v.cancelled_le room;
    }
Step-Inv (resets d) v = record {
  ordered = IsOrdered-subscriptions refl v.ordered;
  cancelled_le = λ e. omega arith;
}

-- After any sequence of operations from a new dispatcher, with priorities in range and counters
-- that do not wrap, every event's subscriptions stand by rising priority, and no event was
-- cancelled more often than it was dispatched.
pub Reach-Inv :
    {H : Type 0} {sorter : Sorter (Subscription H)} {d : Dispatcher H}
    → Reach sorter new_dispatcher d
    → Inv d
unfolding get
Reach-Inv here = record {
  ordered = record { within = λ e. tt; sorted = λ e. tt };
  cancelled_le = λ e. omega arith;
}
Reach-Inv (next r s) = Step-Inv s (Reach-Inv r)
