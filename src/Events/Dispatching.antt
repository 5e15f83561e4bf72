-- ===== src/Events/Dispatching.antt =====
-- What a dispatch runs and how its result sums up the handlers' answers.
use mathlib.Core.List.{append_assoc, append-nil}
use dragonfly_wasm.Prelude.{
  ℕ, ◌+◌, String, ◌≡◌, refl, sym, ◌∙◌, ap, inl, inr, Bool, true, false, not, ◌&&◌, ◌||◌, Option,
  none, some, List, [], ◌∷◌, ◌++◌, str_eq, arith, select, if◌then◌else◌, GoMap, get, put, get-put,
  Bool-cases,
}
use dragonfly_wasm.Prelude.Int.{ℤ}
use dragonfly_wasm.Plugin.Manifest.{EventType}
use dragonfly_wasm.Events.{
  Subscription, Dispatcher, DispatchResult, HandlerReturn, returned, failed, empty_result, merge,
  absorb, visit_all, dispatch, dispatch_to, subs_of,
}

-- Whether an answer cancels the event.
abbrev pub cancels : HandlerReturn → Bool
cancels (failed err) = false
cancels (returned none) = false
cancels (returned (some e)) = e.cancelled

-- The modifications that an answer asks for.
abbrev pub changes : HandlerReturn → GoMap String
changes (failed err) = []
changes (returned none) = []
changes (returned (some e)) = e.modifications

abbrev pub succeeded : HandlerReturn → Bool
succeeded (failed err) = false
succeeded (returned r) = true

abbrev pub error_of : HandlerReturn → List String → List String
error_of (failed err) errs = err ∷ errs
error_of (returned r) errs = errs

abbrev pub errors_of : List HandlerReturn → List String
errors_of [] = []
errors_of (a ∷ answers) = error_of a (errors_of answers)

abbrev pub any_cancels : List HandlerReturn → Bool
any_cancels [] = false
any_cancels (a ∷ answers) = cancels a || any_cancels answers

abbrev pub successes : List HandlerReturn → ℕ
successes [] = 0
successes (a ∷ answers) = (if succeeded a then 1 else 0) + successes answers

-- The last value that a list of entries gives to a key, or else the value that it had before.
abbrev pub last_entry : GoMap String → String → Option String → Option String
last_entry [] k old = old
last_entry ((j, v) ∷ m) k old = last_entry m k (if str_eq j k then some v else old)

-- The last value that the answers give to a key, or else the value that it had before.
abbrev pub last_change : List HandlerReturn → String → Option String → Option String
last_change [] k old = old
last_change (a ∷ answers) k old = last_change answers k (last_entry (changes a) k old)

-- How a result sums up answers, over a result `r` that it started from.
pub record Sums (answers : List HandlerReturn) (r result : DispatchResult) : Type 0 where
  pub cancelled : result.cancelled ≡ (r.cancelled || any_cancels answers)
  pub handlers : result.handlers ≡ r.handlers + successes answers
  pub errors : result.errors ≡ r.errors ++ errors_of answers
  pub modifications :
      (k : String) → get result.modifications k ≡ last_change answers k (get r.modifications k)

get-merge :
    (m added : GoMap String) (k : String) → get (merge m added) k ≡ last_entry added k (get m k)
get-merge m [] k = refl
get-merge m ((j, v) ∷ added) k =
    get-merge (put m j v) added k ∙ ap (last_entry added k) (get-put m j k v)

module _ {H W : Type 0} (invoke : H → List ℕ → W → HandlerReturn × W) (serialized : List ℕ) where
  -- The answers of the handlers that a dispatch runs, in order: all of them, but once an answer
  -- has cancelled the event (`done`) only those that do not ignore cancelled events.
  unfoldable pub answers_of : Bool → List (Subscription H) → W → List HandlerReturn
  answers_of done [] w = []
  answers_of done (sub ∷ subs) w = elim (done && sub.ignore_cancelled) [
    | true ↦ answers_of done subs w
    | false ↦
        let (a, w') = invoke sub.handler serialized w in a ∷ answers_of (done || cancels a) subs w'
  ]

Sums-cons :
    (a : HandlerReturn) (answers : List HandlerReturn) (r result : DispatchResult)
    → Sums answers (absorb a r) result
    → Sums (a ∷ answers) r result
Sums-cons (failed err) answers r result v = record {
  cancelled = v.cancelled;
  handlers = omega (arith, v.handlers);
  errors = v.errors ∙ append_assoc r.errors (err ∷ []) (errors_of answers);
  modifications = v.modifications;
}
Sums-cons (returned none) answers r result v = record {
  cancelled = v.cancelled;
  handlers = omega (arith, v.handlers);
  errors = v.errors;
  modifications = v.modifications;
}
Sums-cons (returned (some e)) answers r result v = record {
  cancelled = v.cancelled ∙ ground arith;
  handlers = omega (arith, v.handlers);
  errors = v.errors;
  modifications = λ k.
      v.modifications k ∙ ap (last_change answers k) (get-merge r.modifications e.modifications k);
}

absorb-cancelled :
    (a : HandlerReturn) (r : DispatchResult) → (absorb a r).cancelled ≡ (r.cancelled || cancels a)
absorb-cancelled a r = ground arith

module _ {H : Type 0} where
  -- The subscriptions that do not ignore cancelled events.
  abbrev pub heeding : List (Subscription H) → List (Subscription H)
  heeding = select (λ s. not s.ignore_cancelled)

  without_ignoring :
      (sub : Subscription H) (subs : List (Subscription H))
      → sub.ignore_cancelled ≡ true
      → heeding (sub ∷ subs) ≡ heeding subs
  without_ignoring sub subs h = ground arith

  with_heeding :
      (sub : Subscription H) (subs : List (Subscription H))
      → sub.ignore_cancelled ≡ false
      → heeding (sub ∷ subs) ≡ sub ∷ heeding subs
  with_heeding sub subs h = ground arith

-- A handler's answer is part of the result, and the next handlers run on what it left.
module _ {H W : Type 0} (invoke : H → List ℕ → W → HandlerReturn × W) (serialized : List ℕ) where
  module _ (sub : Subscription H) (subs : List (Subscription H)) (r : DispatchResult) (w : W) where
    visit_all_skips :
        (r.cancelled && sub.ignore_cancelled) ≡ true
        → visit_all invoke serialized (sub ∷ subs) (r, w) ≡ visit_all invoke serialized subs (r, w)
    unfolding visit_all
    visit_all_skips h = ap (visit_all invoke serialized subs) (rw h)

    visit_all_runs :
        (r.cancelled && sub.ignore_cancelled) ≡ false
        → let (a, w') = invoke sub.handler serialized w in
          visit_all invoke serialized (sub ∷ subs) (r, w)
          ≡ visit_all invoke serialized subs (absorb a r, w')
    unfolding visit_all
    visit_all_runs h = ap (visit_all invoke serialized subs) (rw h)

    answers_of_skips :
        (r.cancelled && sub.ignore_cancelled) ≡ true
        → answers_of invoke serialized r.cancelled (sub ∷ subs) w
          ≡ answers_of invoke serialized r.cancelled subs w
    unfolding answers_of
    answers_of_skips h = ground arith

    answers_of_runs :
        (r.cancelled && sub.ignore_cancelled) ≡ false
        → let (a, w') = invoke sub.handler serialized w in
          answers_of invoke serialized r.cancelled (sub ∷ subs) w
          ≡ a ∷ answers_of invoke serialized (r.cancelled || cancels a) subs w'
    unfolding answers_of
    answers_of_runs h = ground arith

  visit_all-Sums :
      (subs : List (Subscription H)) (r : DispatchResult) (w : W)
      → Sums
          (answers_of invoke serialized r.cancelled subs w)
          r
          (visit_all invoke serialized subs (r, w)).0
  visit_all-Sums [] r w =
      unfold visit_all answers_of in
      record {
        cancelled = ground arith;
        handlers = omega arith;
        errors = sym (append-nil r.errors);
        modifications = λ k. refl;
      }
  visit_all-Sums (sub ∷ subs) r w = elim (Bool-cases (r.cancelled && sub.ignore_cancelled)) [
    | inl skipped ↦
        rw (answers_of_skips sub subs r w skipped, visit_all_skips sub subs r w skipped)
          (visit_all-Sums subs r w)
    | inr run ↦
        let (a, w') = invoke sub.handler serialized w in
        rw (answers_of_runs sub subs r w run, visit_all_runs sub subs r w run)
          (Sums-cons a _ r _ (rw (← absorb-cancelled a r) (visit_all-Sums subs (absorb a r) w')))
  ]

  -- The result of a dispatch: the event is cancelled exactly when a handler that ran cancelled it,
  -- handlers that succeeded are counted, the errors are those of the handlers that failed, in
  -- order, and each modification has the value that the last handler to set it gave. A failing
  -- handler stops no other one, and once the event is cancelled those that ignore cancelled events
  -- do not run.
  pub dispatch-Sums :
      (d : Dispatcher H) (event : EventType) (elapsed : ℤ) (w : W)
      → Sums
          (answers_of invoke serialized false (subs_of d event) w)
          empty_result
          (dispatch invoke d event serialized elapsed w).0
  unfolding dispatch
  dispatch-Sums d event elapsed w = sums_to (subs_of d event)
    where
      sums_to :
          (subs : List (Subscription H))
          → Sums
              (answers_of invoke serialized false subs w)
              empty_result
              (dispatch_to invoke subs d event serialized elapsed w).0
      sums_to [] = visit_all-Sums [] empty_result w
      sums_to (sub ∷ subs) =
          let v = visit_all-Sums (sub ∷ subs) empty_result w in
          record {
            cancelled = v.cancelled;
            handlers = v.handlers;
            errors = v.errors;
            modifications = v.modifications;
          }

  -- Once the event is cancelled, a dispatch does the same as if the subscriptions that ignore
  -- cancelled events were not there.
  pub visit_all_after_cancel :
      (subs : List (Subscription H)) (r : DispatchResult) (w : W)
      → r.cancelled ≡ true
      → visit_all invoke serialized subs (r, w) ≡ visit_all invoke serialized (heeding subs) (r, w)
  visit_all_after_cancel [] r w h = refl
  visit_all_after_cancel (sub ∷ subs) r w h = elim (Bool-cases sub.ignore_cancelled) [
    | inl ignores ↦
        visit_all_skips sub subs r w (ground arith)
        ∙ visit_all_after_cancel subs r w h
        ∙ ap (λ l. visit_all invoke serialized l (r, w)) (sym (without_ignoring sub subs ignores))
    | inr heeds ↦
        let (a, w') = invoke sub.handler serialized w in
        visit_all_runs sub subs r w (ground arith)
        ∙ visit_all_after_cancel subs (absorb a r) w' (absorb-cancelled a r ∙ ground arith)
        ∙ sym (visit_all_runs sub (heeding subs) r w (ground arith))
        ∙ ap (λ l. visit_all invoke serialized l (r, w)) (sym (with_heeding sub subs heeds))
  ]
