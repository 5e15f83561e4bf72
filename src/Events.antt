-- ===== src/Events.antt =====
-- pkg/events/dispatcher.go. A dispatcher is generic in its handlers `H`; what running one does to
-- the rest of the server, a state `W`, is the parameter `invoke`. The locks order the operations,
-- which the model takes one after the other; handlers do not change the dispatcher.
pub mod Priorities
pub mod Unsubscribing
pub mod Dispatching
pub mod Counters
pub mod Worlds
mod Examples
use mathlib.Core.Bool.{cond}
use dragonfly_wasm.Prelude.{
  ℕ, ◌+◌, ◌%◌, String, Bool, true, false, not, ◌&&◌, ◌||◌, Option, none, some, List, [], ◌∷◌, ◌++◌,
  str_eq, ltb, length, select, if◌then◌else◌, GoMap, get, put, keys, value_or,
}
use dragonfly_wasm.Prelude.Int.{ℤ, pos, ◌+ℤ◌, ◌-ℤ◌, wrap_int, int_mod}
use dragonfly_wasm.Prelude.Sorting.{Sorter}
use dragonfly_wasm.Plugin.Manifest.{EventType}
use dragonfly_wasm.Plugin.Metrics.{incr, bump}

pub record EventResult : Type 0 where
  pub cancelled : Bool
  pub modifications : GoMap String
  pub error : String

-- The two results of a `Handler`: an error, or a pointer that may be nil.
pub data HandlerReturn : Type 0 where
  returned : Option EventResult → HandlerReturn
  failed : (err : String) → HandlerReturn

pub record Subscription (H : Type 0) : Type 0 where
  pub plugin_id : String
  pub priority : ℤ
  pub handler : H
  pub ignore_cancelled : Bool

pub record Dispatcher (H : Type 0) : Type 0 where
  pub subscriptions : GoMap (List (Subscription H))
  pub event_count : GoMap ℕ
  pub cancel_count : GoMap ℕ
  pub dispatch_times : GoMap ℤ

-- A nil map of modifications and an empty one read alike.
pub record DispatchResult : Type 0 where
  pub cancelled : Bool
  pub modifications : GoMap String
  pub handlers : ℕ
  pub duration : ℤ
  pub errors : List String

abbrev pub empty_result : DispatchResult
empty_result = record {
  cancelled = false;
  modifications = [];
  handlers = 0;
  duration = pos 0;
  errors = [];
}

pub record EventMetrics : Type 0 where
  pub event_type : EventType
  pub total_count : ℕ
  pub cancel_count : ℕ
  pub total_duration : ℤ

-- Adds the entries of a map to another: `for k, v := range added { result[k] = v }`.
abbrev pub merge : GoMap String → GoMap String → GoMap String
merge m [] = m
merge m ((k, v) ∷ added) = merge (put m k v) added

module _ {H : Type 0} where
  abbrev pub new_dispatcher : Dispatcher H
  new_dispatcher = record {
    subscriptions = [];
    event_count = [];
    cancel_count = [];
    dispatch_times = [];
  }

  -- d.subscriptions[event]
  abbrev pub subs_of : Dispatcher H → EventType → List (Subscription H)
  subs_of d event = value_or (get d.subscriptions event) []

  -- int(a.Priority - b.Priority)
  unfoldable pub compare_priority : Subscription H → Subscription H → ℤ
  compare_priority a b = wrap_int (a.priority -ℤ b.priority)

  unfoldable pub subscribe :
      Sorter (Subscription H) → Dispatcher H → EventType → Subscription H → Dispatcher H
  subscribe sorter d event sub =
      let subs = subs_of d event ++ sub ∷ [] in
      record d {
        subscriptions = put d.subscriptions event (sorter.sort_func compare_priority subs);
      }

  -- slices.DeleteFunc of the subscriptions of one plugin.
  abbrev pub without_plugin : String → List (Subscription H) → List (Subscription H)
  without_plugin id = select (λ s. not (str_eq s.plugin_id id))

  without_plugin_each : String → GoMap (List (Subscription H)) → GoMap (List (Subscription H))
  without_plugin_each id [] = []
  without_plugin_each id ((event, subs) ∷ m) =
      (event, without_plugin id subs) ∷ without_plugin_each id m

  unfoldable pub unsubscribe : Dispatcher H → String → Dispatcher H
  unfolding without_plugin_each
  unsubscribe d id = record d { subscriptions = without_plugin_each id d.subscriptions }

  unfoldable pub unsubscribe_event : Dispatcher H → String → EventType → Dispatcher H
  unsubscribe_event d id event = record d {
    subscriptions = put d.subscriptions event (without_plugin id (subs_of d event));
  }

  unfoldable pub has_subscribers : Dispatcher H → EventType → Bool
  has_subscribers d event = ltb 0 (length (subs_of d event))

  unfoldable pub subscriber_count : Dispatcher H → EventType → ℕ
  subscriber_count d event = length (subs_of d event)

  metrics_of : Dispatcher H → List EventType → List EventMetrics
  metrics_of d [] = []
  metrics_of d (event ∷ events) =
      record {
        event_type = event;
        total_count = value_or (get d.event_count event) 0;
        cancel_count = value_or (get d.cancel_count event) 0;
        total_duration = value_or (get d.dispatch_times event) (pos 0);
      }
      ∷ metrics_of d events

  unfoldable pub get_metrics : Dispatcher H → List EventMetrics
  unfolding metrics_of
  get_metrics d = metrics_of d (keys d.event_count)

  unfoldable pub reset_metrics : Dispatcher H → Dispatcher H
  reset_metrics d = record d { event_count = []; cancel_count = []; dispatch_times = [] }

  -- The counters after a dispatch with result `r`.
  unfoldable pub count_dispatch : Dispatcher H → EventType → DispatchResult → Dispatcher H
  count_dispatch d event r = record d {
    event_count = bump d.event_count event;
    cancel_count = if r.cancelled then bump d.cancel_count event else d.cancel_count;
    dispatch_times =
        put d.dispatch_times event
          (wrap_int (value_or (get d.dispatch_times event) (pos 0) +ℤ r.duration));
  }

-- What one handler's answer adds to the result.
abbrev pub absorb : HandlerReturn → DispatchResult → DispatchResult
absorb (failed err) r = record r { errors = r.errors ++ err ∷ [] }
absorb (returned none) r = record r { handlers = r.handlers + 1 }
absorb (returned (some e)) r = record r {
  handlers = r.handlers + 1;
  cancelled = if e.cancelled then true else r.cancelled;
  modifications = merge r.modifications e.modifications;
}

module _ {H W : Type 0} (invoke : H → List ℕ → W → HandlerReturn × W) where
  -- The body of the loop over the subscriptions.
  visit : List ℕ → Subscription H → DispatchResult × W → DispatchResult × W
  visit serialized sub (r, w) =
      if r.cancelled && sub.ignore_cancelled
      then (r, w)
      else (let (answer, w') = invoke sub.handler serialized w in (absorb answer r, w'))

  pub visit_all : List ℕ → List (Subscription H) → DispatchResult × W → DispatchResult × W
  unfolding visit
  visit_all serialized [] s = s
  visit_all serialized (sub ∷ subs) s = visit_all serialized subs (visit serialized sub s)

  -- `elapsed` is what `time.Since` answers behind the loop. The error is always nil.
  dispatch_to :
      List (Subscription H)
      → Dispatcher H
      → EventType
      → List ℕ
      → ℤ
      → W
      → DispatchResult × Dispatcher H × W
  unfolding visit_all count_dispatch
  dispatch_to [] d event serialized elapsed w = (empty_result, d, w)
  dispatch_to (sub ∷ subs) d event serialized elapsed w =
      let (r, w') = visit_all serialized (sub ∷ subs) (empty_result, w) in
      let result = record r { duration = elapsed } in (result, count_dispatch d event result, w')

  unfoldable pub dispatch :
      Dispatcher H → EventType → List ℕ → ℤ → W → DispatchResult × Dispatcher H × W
  unfolding dispatch_to
  dispatch d event serialized elapsed w = dispatch_to (subs_of d event) d event serialized elapsed w
