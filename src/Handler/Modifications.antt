-- ===== src/Handler/Modifications.antt =====
-- internal/handler/handler.go over internal/manager/manager.go: what plugins can change of an event.
use dragonfly_wasm.Prelude.{
  ℕ, String, ◌≡◌, refl, ◌∙◌, ap, inl, inr, Bool, false, not, ◌&&◌, ◌||◌, Option, none, some, List,
  [], ◌∷◌, All, get, value_or, Bool-cases,
}
use dragonfly_wasm.Prelude.Int.{ℤ}
use dragonfly_wasm.Config.{Config}
use dragonfly_wasm.Plugin.State.{is_enabled, is_loaded}
use dragonfly_wasm.Plugin.Manifest.{EventType}
use dragonfly_wasm.Plugin.Metrics.{Metrics}
use dragonfly_wasm.Events.{Subscription, Dispatcher, HandlerReturn, subs_of}
use dragonfly_wasm.Events.Dispatching.{answers_of, cancels, changes, last_change}
use dragonfly_wasm.Manager.Wasm.{Wasm, CallResult, Answer, done, result}
use dragonfly_wasm.Manager.Lifecycle.{LoadedPlugin, Handler}
use dragonfly_wasm.Manager.Lifecycle.Handling.{
  Store, parse_event_result, handled, ended, answered, run_handler, handle_pointed, handle,
}
use dragonfly_wasm.Handler.Json.{Fields}
use dragonfly_wasm.Handler.Game.{Game, DamageSource}
use dragonfly_wasm.Handler.Dispatch.{Context, keep_or, dispatch_event, handle_chat, handle_death}
use dragonfly_wasm.Handler.Cancelling.{answers_to, dispatch_event-Answers}

parse_event_result-modifications :
    (output : List ℕ) → (parse_event_result output).modifications ≡ []
unfolding parse_event_result
parse_event_result-modifications [] = refl
parse_event_result-modifications (b ∷ output) = refl

module _ {I W : Type 0} (env : Wasm I W) (config : Config) where
  ended-changes :
      (h : Handler) (p : LoadedPlugin I) (m : Metrics) (r : CallResult) (err : Option String)
      (s : Store I W)
      → changes (ended env config h p m r err s).0 ≡ []
  unfolding ended handled
  ended-changes h p m r none (heap, w) = parse_event_result-modifications r.output
  ended-changes h p m r (some err) (heap, w) = refl

  answered-changes :
      (h : Handler) (p : LoadedPlugin I) (start : ℤ) (a : Answer) (s : Store I W)
      → changes (answered env config h p start a s).0 ≡ []
  unfolding answered
  answered-changes h p start (done err) (heap, w) = refl
  answered-changes h p start (result r) (heap, w) = ended-changes h p _ r r.err _

  handle_pointed-changes :
      (h : Handler) (data_bytes : List ℕ) (o : Option (LoadedPlugin I)) (s : Store I W)
      → changes (handle_pointed env config h data_bytes o s).0 ≡ []
  unfolding handle_pointed run_handler
  handle_pointed-changes h data_bytes none s = refl
  handle_pointed-changes h data_bytes (some p) (heap, w) =
      elim (Bool-cases (not (is_enabled p.info.state) && not (is_loaded p.info.state))) [
        | inl off ↦ rw off refl
        | inr on ↦ rw on (answered-changes h p _ _ _)
      ]

  -- No handler of the manager asks for a modification.
  handle-changes :
      (h : Handler) (data_bytes : List ℕ) (s : Store I W)
      → changes (handle env config h data_bytes s).0 ≡ []
  unfolding handle
  handle-changes h data_bytes (heap, w) = handle_pointed-changes h data_bytes _ (heap, w)

module _ {H W : Type 0} (invoke : H → List ℕ → W → HandlerReturn × W)
    (silent : (h : H) (bytes : List ℕ) (w : W) → changes (invoke h bytes w).0 ≡ []) where
  answers_of-silent :
      (bytes : List ℕ) (over : Bool) (subs : List (Subscription H)) (w : W)
      → All (λ a. changes a ≡ []) (answers_of invoke bytes over subs w)
  unfolding answers_of
  answers_of-silent bytes over [] w = tt
  answers_of-silent bytes over (sub ∷ subs) w = elim (Bool-cases (over && sub.ignore_cancelled)) [
    | inl skipped ↦ rw (skipped, answers_of) (answers_of-silent bytes over subs w)
    | inr run ↦
        rw (run, answers_of)
          ((
            silent sub.handler bytes w,
            answers_of-silent bytes (over || cancels (invoke sub.handler bytes w).0) subs
                (invoke sub.handler bytes w).1,
          ))
  ]

  answers_to-silent :
      {F : Type 0} (marshal : Fields F → Option (List ℕ)) (o : Option (List ℕ))
      (subs : List (Subscription H)) (w : W)
      → All (λ a. changes a ≡ []) (answers_to invoke marshal o subs w)
  unfolding answers_to
  answers_to-silent marshal none subs w = tt
  answers_to-silent marshal (some bytes) subs w = answers_of-silent bytes false subs w

last_change-silent :
    (answers : List HandlerReturn) (k : String) (old : Option String)
    → All (λ a. changes a ≡ []) answers
    → last_change answers k old ≡ old
last_change-silent [] k old h = refl
last_change-silent (a ∷ answers) k old h = rw (h.0) (last_change-silent answers k old h.1)

module _ {I W P B E J F : Type 0} (env : Wasm I W) (config : Config)
    (marshal : Fields F → Option (List ℕ)) (game : Game (Store I W) P B E J F) (elapsed : ℤ)
    (d : Dispatcher Handler) (s : Store I W) where
  unmodified :
      (event : EventType) (fields : Fields F) (k : String)
      → get (dispatch_event (handle env config) marshal event fields elapsed (d, s)).0.1 k ≡ none
  unmodified event fields k =
      (dispatch_event-Answers (handle env config) marshal event fields elapsed d s).modified k
      ∙ last_change-silent _ k none (
          answers_to-silent (handle env config) (handle-changes env config) marshal (marshal fields)
            (subs_of d event) s)

  -- With the handlers that the manager registers, no plugin can change a chat message or whether a
  -- player keeps the inventory on death: the handlers of these events give back what they were
  -- given.
  pub plugins_modify_nothing :
      (ctx : Context P) (message : String) (p : P) (src : DamageSource E) (keep_inv : Bool)
      → ((handle_chat (handle env config) marshal game elapsed ctx message (d, s)).0.1 ≡ message)
        × ((handle_death (handle env config) marshal game elapsed p src keep_inv (d, s)).0
            ≡ keep_inv)
  unfolding handle_chat handle_death
  plugins_modify_nothing ctx message p src keep_inv = (
    ap (λ o. value_or o message) (unmodified "player_chat" _ "message"),
    ap (λ o. keep_or o keep_inv) (unmodified "player_death" _ "keep_inventory"),
  )
