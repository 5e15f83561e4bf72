-- ===== src/Handler/Cancelling.antt =====
-- internal/handler/handler.go: when an event is cancelled.
use dragonfly_wasm.Prelude.{
  ℕ, String, ◌≡◌, refl, ◌∙◌, ap, inl, inr, Bool, false, ◌||◌, Option, none, some, List, [], ◌∷◌,
  arith, GoMap, get, ltb, length, Bool-cases,
}
use dragonfly_wasm.Prelude.Int.{ℤ}
use dragonfly_wasm.Plugin.Manifest.{EventType}
use dragonfly_wasm.Events.{Subscription, Dispatcher, HandlerReturn, has_subscribers, subs_of}
use dragonfly_wasm.Events.Dispatching.{answers_of, any_cancels, last_change, dispatch-Sums}
use dragonfly_wasm.Handler.Json.{Fields}
use dragonfly_wasm.Handler.Game.{Game}
use dragonfly_wasm.Handler.Dispatch.{
  Context, cancel_if, dispatch_marshaled, dispatch_event, dispatch_cancellable, handle_chat,
  handle_move, handle_teleport, handle_toggle_sprint, handle_toggle_sneak, handle_hurt, handle_heal,
  handle_block_break, handle_block_place, handle_item_use, handle_item_use_on_block,
  handle_item_use_on_entity,
}
use dragonfly_wasm.Handler.Calls.{
  Action, chats, moves, teleports, toggles_sprint, toggles_sneak, is_hurt, is_healed, breaks_block,
  places_block, uses_item, uses_item_on_block, uses_item_on_entity, event_of, payload, act,
}

no_subs : {H : Type 0} (subs : List (Subscription H)) → ltb 0 (length subs) ≡ false → subs ≡ []
no_subs [] h = refl
no_subs (s ∷ subs) h = ground arith

module _ {H W F : Type 0} (invoke : H → List ℕ → W → HandlerReturn × W)
    (marshal : Fields F → Option (List ℕ)) where
  -- What the plugins answer that an event is sent to: nothing when its data cannot be encoded.
  unfoldable pub answers_to : Option (List ℕ) → List (Subscription H) → W → List HandlerReturn
  answers_to none subs w = []
  answers_to (some json_data) subs w = answers_of invoke json_data false subs w

  abbrev pub asked : EventType → Fields F → Dispatcher H → W → List HandlerReturn
  asked event fields d w = answers_to (marshal fields) (subs_of d event) w

  -- What `dispatchEvent` answers, by what the plugins do.
  pub record Answers (answers : List HandlerReturn) (r : Bool × GoMap String) : Type 0 where
    pub cancelled : r.0 ≡ any_cancels answers
    pub modified : (k : String) → get r.1 k ≡ last_change answers k none

  unheard-Answers : Answers [] (false, [])
  unfolding get
  unheard-Answers = record { cancelled = refl; modified = λ k. refl }

  unsent-Answers : (o : Option (List ℕ)) (w : W) → Answers (answers_to o [] w) (false, [])
  unfolding answers_to answers_of
  unsent-Answers none w = unheard-Answers
  unsent-Answers (some json_data) w = unheard-Answers

  marshaled-Answers :
      (event : EventType) (o : Option (List ℕ)) (elapsed : ℤ) (d : Dispatcher H) (w : W)
      → Answers
          (answers_to o (subs_of d event) w)
          (dispatch_marshaled invoke marshal event o elapsed (d, w)).0
  unfolding dispatch_marshaled answers_to get
  marshaled-Answers event none elapsed d w = unheard-Answers
  marshaled-Answers event (some json_data) elapsed d w =
      let v = dispatch-Sums invoke json_data d event elapsed w in
      record { cancelled = v.cancelled; modified = λ k. v.modifications k }

  pub dispatch_event-Answers :
      (event : EventType) (fields : Fields F) (elapsed : ℤ) (d : Dispatcher H) (w : W)
      → Answers
          (asked event fields d w)
          (dispatch_event invoke marshal event fields elapsed (d, w)).0
  unfolding dispatch_event has_subscribers
  dispatch_event-Answers event fields elapsed d w =
      elim (Bool-cases (ltb 0 (length (subs_of d event)))) [
        | inl some_ ↦ rw some_ (marshaled-Answers event (marshal fields) elapsed d w)
        | inr none_ ↦
            rw (none_, no_subs (subs_of d event) none_) (unsent-Answers (marshal fields) w)
      ]

  module _ {P B E I : Type 0} (game : Game W P B E I F) (elapsed : ℤ) where
    cancel_if-is : (b : Bool) (ctx : Context P) → (cancel_if b ctx).cancelled ≡ (ctx.cancelled || b)
    cancel_if-is b ctx = ground arith

    cancel_if-val : (b : Bool) (ctx : Context P) → (cancel_if b ctx).val ≡ ctx.val
    cancel_if-val b ctx = ground arith

    -- A context behind the answers of the plugins.
    pub record Cancelled (answers : List HandlerReturn) (old new : Context P) : Type 0 where
      pub val : new.val ≡ old.val
      pub cancelled : new.cancelled ≡ (old.cancelled || any_cancels answers)

    cancel_if-Cancelled :
        (answers : List HandlerReturn) (r : Bool × GoMap String) (ctx : Context P)
        → Answers answers r
        → Cancelled answers ctx (cancel_if r.0 ctx)
    cancel_if-Cancelled answers r ctx v = record {
      val = cancel_if-val r.0 ctx;
      cancelled = cancel_if-is r.0 ctx ∙ ap (λ b. ctx.cancelled || b) v.cancelled;
    }

    cancellable-Cancelled :
        (event : EventType) (fields : Fields F) (ctx : Context P) (d : Dispatcher H) (w : W)
        → Cancelled
            (asked event fields d w)
            ctx
            (dispatch_cancellable invoke marshal game elapsed event fields ctx (d, w)).0
    unfolding dispatch_cancellable
    cancellable-Cancelled event fields ctx d w =
        cancel_if-Cancelled _ _ ctx (dispatch_event-Answers event fields elapsed d w)

    -- Each handler asks the plugins that subscribed to its event, with its data, and cancels the
    -- player's context exactly when one of those that run answers so; a context that was cancelled
    -- before stays so. An event whose data cannot be encoded is not cancelled.
    pub act-Cancelled :
        (a : Action B E I F) (ctx : Context P) (d : Dispatcher H) (w : W)
        → Cancelled
            (asked (event_of a) (payload game ctx.val w a) d w)
            ctx
            (act invoke marshal game elapsed a ctx (d, w)).0
    unfolding act handle_chat handle_move handle_teleport handle_toggle_sprint handle_toggle_sneak
        handle_hurt handle_heal handle_block_break handle_block_place handle_item_use
        handle_item_use_on_block handle_item_use_on_entity
    act-Cancelled (chats message) ctx d w =
        cancel_if-Cancelled _ _ ctx (dispatch_event-Answers "player_chat" _ elapsed d w)
    act-Cancelled (moves pos yaw pitch) ctx d w = cancellable-Cancelled "player_move" _ ctx d w
    act-Cancelled (teleports pos) ctx d w = cancellable-Cancelled "player_teleport" _ ctx d w
    act-Cancelled (toggles_sprint after) ctx d w = cancellable-Cancelled "player_sprint" _ ctx d w
    act-Cancelled (toggles_sneak after) ctx d w = cancellable-Cancelled "player_sneak" _ ctx d w
    act-Cancelled (is_hurt damage immune src) ctx d w =
        cancellable-Cancelled "player_hurt" _ ctx d w
    act-Cancelled (is_healed health src) ctx d w = cancellable-Cancelled "player_heal" _ ctx d w
    act-Cancelled (breaks_block pos drops xp) ctx d w =
        cancellable-Cancelled "block_break" _ ctx d w
    act-Cancelled (places_block pos b) ctx d w = cancellable-Cancelled "block_place" _ ctx d w
    act-Cancelled uses_item ctx d w = cancellable-Cancelled "item_use" _ ctx d w
    act-Cancelled (uses_item_on_block pos face click) ctx d w =
        cancellable-Cancelled "item_use_on_block" _ ctx d w
    act-Cancelled (uses_item_on_entity e) ctx d w =
        cancellable-Cancelled "item_use_on_entity" _ ctx d w
