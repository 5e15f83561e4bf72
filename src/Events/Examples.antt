-- ===== src/Events/Examples.antt =====
-- Runs of the dispatcher, and the theorems at concrete inputs.
use mathlib.Core.List.{Perm}
use dragonfly_wasm.Prelude.{
  ℕ, ◌+◌, ◌-◌, ◌^◌, ◌≤◌, ◌<◌, String, ◌≡◌, ◌≢◌, refl, Bool, true, false, ◌&&◌, Option, none, some,
  List, [], ◌∷◌, ◌++◌, str_eq, arith, eq_iff, if◌then◌else◌, GoMap, ltb,
}
use dragonfly_wasm.Prelude.Int.{ℤ, pos, negsuc, ◌<ℤ◌}
use dragonfly_wasm.Prelude.Sorting.{Sorter, insertion_sorter, is_negative}
use dragonfly_wasm.Plugin.Metrics.Counts.{count_of}
use dragonfly_wasm.Events.{
  HandlerReturn, returned, failed, Subscription, Dispatcher, DispatchResult, empty_result,
  new_dispatcher, subs_of, compare_priority, subscribe, visit_all, dispatch,
}
use dragonfly_wasm.Events.Priorities.{IsOrdered, subscribe-IsOrdered, compare_priority_flips}
use dragonfly_wasm.Events.Dispatching.{
  Sums, answers_of, heeding, dispatch-Sums, visit_all_after_cancel,
}
use dragonfly_wasm.Events.Counters.{Inv, here, next, subscribes, dispatches, Reach-Inv}

-- Handlers that are their answers, and a state that counts the calls.
abbrev invoke : HandlerReturn → List ℕ → ℕ → HandlerReturn × ℕ
invoke answer bytes w = (answer, w + 1)

abbrev answer : Bool → String → HandlerReturn
answer cancelled reason =
    returned
      (some (record { cancelled = cancelled; modifications = ("reason", reason) ∷ []; error = "" }))

abbrev monitor : HandlerReturn
monitor = answer false "seen"

abbrev cancel : HandlerReturn
cancel = answer true "no"

abbrev sub : String → ℤ → HandlerReturn → Bool → Subscription HandlerReturn
sub id priority handler ignore = record {
  plugin_id = id;
  priority = priority;
  handler = handler;
  ignore_cancelled = ignore;
}

abbrev sorter : Sorter (Subscription HandlerReturn)
sorter = insertion_sorter

abbrev first : Dispatcher HandlerReturn
first = subscribe sorter new_dispatcher "player_chat" (sub "com.a" (pos 100) monitor true)

abbrev second : Dispatcher HandlerReturn
second = subscribe sorter first "player_chat" (sub "com.b" (pos 0) cancel false)

abbrev third : Dispatcher HandlerReturn
third = subscribe sorter second "player_chat" (sub "com.c" (negsuc 99) (failed "trap") false)

abbrev three : List (Subscription HandlerReturn)
three =
    sub "com.c" (negsuc 99) (failed "trap") false
    ∷ sub "com.b" (pos 0) cancel false
    ∷ sub "com.a" (pos 100) monitor true
    ∷ []

third-order : subs_of third "player_chat" ≡ three
unfolding subscribe insertion_sorter dragonfly_wasm.Prelude.put dragonfly_wasm.Prelude.get
    compare_priority
third-order = refl

chat-result : (dispatch invoke third "player_chat" [] (pos 7) 0).0 ≡ record {
  cancelled = true;
  modifications = ("reason", "no") ∷ [];
  handlers = 1;
  duration = pos 7;
  errors = "trap" ∷ [];
}
unfolding subscribe insertion_sorter dragonfly_wasm.Prelude.put dragonfly_wasm.Prelude.get
    compare_priority dispatch
chat-result = refl

new-IsOrdered : IsOrdered {H = HandlerReturn} new_dispatcher
new-IsOrdered = record {
  within = λ e. unfold dragonfly_wasm.Prelude.get in tt;
  sorted = λ e. unfold dragonfly_wasm.Prelude.get in tt;
}

chat-ne_quit : ◌≢◌ {A = String} "player_chat" "player_quit"
chat-ne_quit e = ground (arith, eq_iff "player_chat" "player_quit")

first-IsOrdered : IsOrdered first
first-IsOrdered =
    (subscribe-IsOrdered sorter new_dispatcher "player_chat" (sub "com.a" (pos 100) monitor true)
      "player_quit" new-IsOrdered refl chat-ne_quit).0

a-ne_b : ◌≢◌ {A = String} "com.a" "com.b"
a-ne_b e = ground (arith, eq_iff "com.a" "com.b")

subscribe-IsOrdered_example :
    IsOrdered second
    × Perm
        (subs_of second "player_chat")
        (subs_of first "player_chat" ++ sub "com.b" (pos 0) cancel false ∷ [])
    × (subs_of second "player_quit" ≡ subs_of first "player_quit")
subscribe-IsOrdered_example =
    subscribe-IsOrdered sorter first "player_chat" (sub "com.b" (pos 0) cancel false) "player_quit"
      first-IsOrdered refl chat-ne_quit

abbrev highest : Subscription HandlerReturn
highest = sub "com.a" (pos (2 ^ 63 - 1)) monitor false

abbrev low : Subscription HandlerReturn
low = sub "com.b" (negsuc 0) monitor false

compare_priority_flips_example :
    (low.priority <ℤ highest.priority) × (is_negative (compare_priority highest low) ≡ true)
compare_priority_flips_example =
    compare_priority_flips highest low (omega arith) (omega arith) (omega arith)

dispatch-Sums_example :
    Sums
      (answers_of invoke [] false (subs_of third "player_chat") 0)
      empty_result
      (dispatch invoke third "player_chat" [] (pos 7) 0).0
dispatch-Sums_example = dispatch-Sums invoke [] third "player_chat" (pos 7) 0

abbrev cancelled_result : DispatchResult
cancelled_result = record empty_result { cancelled = true }

visit_all_after_cancel_example :
    visit_all invoke [] three (cancelled_result, 0)
    ≡ visit_all invoke [] (heeding three) (cancelled_result, 0)
visit_all_after_cancel_example = visit_all_after_cancel invoke [] three cancelled_result 0 refl

Reach-Inv_example : Inv (dispatch invoke first "player_chat" [] (pos 7) 0).1
Reach-Inv_example = Reach-Inv (
    next
      (next here
        (subscribes new_dispatcher "player_chat" (sub "com.a" (pos 100) monitor true) refl))
      (dispatches ℕ invoke first "player_chat" [] (pos 7) 0 few))
  where
    few : count_of first.event_count "player_chat" + 1 < 2 ^ 64
    few = unfold subscribe dragonfly_wasm.Prelude.get in omega arith
