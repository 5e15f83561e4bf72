-- ===== src/Handler/Examples.antt =====
-- Runs of the player's handlers, and their theorems at concrete inputs.
use dragonfly_wasm.Prelude.{
  ℕ, ◌+◌, String, ◌≡◌, refl, Bool, true, false, Option, none, some, List, [], ◌∷◌, GoMap,
}
use dragonfly_wasm.Prelude.Int.{pos}
use dragonfly_wasm.Prelude.Sorting.{insertion_sorter}
use dragonfly_wasm.Config.{default_config}
use dragonfly_wasm.Events.{Dispatcher, HandlerReturn, returned, new_dispatcher, subscribe}
use dragonfly_wasm.Manager.LifecycleExamples.{env, enabled_manager}
use dragonfly_wasm.Manager.Lifecycle.{Handler}
use dragonfly_wasm.Manager.Lifecycle.Handling.{Store, handle}
use dragonfly_wasm.Handler.Json.{Fields, end, field}
use dragonfly_wasm.Handler.Game.{Game, name, fall}
use dragonfly_wasm.Handler.Payloads.{damage_source_to_string, item_type_name}
use dragonfly_wasm.Handler.Dispatch.{Context, handle_chat, handle_death}
use dragonfly_wasm.Handler.Calls.{Action, chats, event_of, payload, act}
use dragonfly_wasm.Handler.Cancelling.{Cancelled, asked, act-Cancelled}
use dragonfly_wasm.Handler.Modifications.{plugins_modify_nothing}

-- Players, blocks, entities and items are their names, and nobody moves.
abbrev game_of : (W : Type 0) → Game W String String String String ℕ
game_of W = record {
  uuid = λ p w. p;
  player_name = λ p w. p;
  xuid = λ p w. "";
  position = λ p w. record { x = 0; y = 64; z = 0 };
  yaw = λ p w. 0;
  pitch = λ p w. 0;
  world_name = λ p w. some "overworld";
  health = λ p w. 20;
  max_health = λ p w. 20;
  block_at = λ p pos w. some none;
  encode_block = λ b. b;
  encode_nbt = λ i. some (("name", name i) ∷ []);
  as_player = λ e. none;
  entity_position = λ e w. record { x = 0; y = 64; z = 0 };
  entity_yaw = λ e w. 0;
  entity_pitch = λ e w. 0;
}

-- The encoding is the number of fields.
abbrev count_fields : Fields ℕ → ℕ
count_fields end = 0
count_fields (field k v fields) = count_fields fields + 1

abbrev marshal : Fields ℕ → Option (List ℕ)
marshal fields = some (count_fields fields ∷ [])

-- Handlers are their answers.
abbrev invoke : HandlerReturn → List ℕ → ℕ → HandlerReturn × ℕ
invoke answer bytes w = (answer, w + 1)

abbrev censor : HandlerReturn
censor =
    returned
      (some (record { cancelled = true; modifications = ("message", "***") ∷ []; error = "" }))

abbrev censored : Dispatcher HandlerReturn
censored = subscribe insertion_sorter new_dispatcher "player_chat" (record {
  plugin_id = "com.example";
  priority = pos 0;
  handler = censor;
  ignore_cancelled = false;
})

abbrev alex : Context String
alex = record { val = "alex"; cancelled = false }

abbrev hello : Action String String String ℕ
hello = chats "hello"

chat-run :
    (handle_chat invoke marshal (game_of ℕ) (pos 1) alex "hello" (censored, 0)).0
    ≡ (record { val = "alex"; cancelled = true }, "***")
unfolding handle_chat subscribe insertion_sorter dragonfly_wasm.Prelude.put
    dragonfly_wasm.Prelude.get dragonfly_wasm.Events.dispatch dragonfly_wasm.Events.has_subscribers
chat-run = refl

source-run : damage_source_to_string {E = String} fall ≡ "fall"
unfolding damage_source_to_string
source-run = refl

item-run : item_type_name (game_of ℕ) (some "stick") ≡ "stick"
unfolding item_type_name dragonfly_wasm.Prelude.get
item-run = refl

act-Cancelled_example :
    Cancelled invoke marshal
      (game_of ℕ)
      (pos 1)
      (asked invoke marshal (event_of hello) (payload (game_of ℕ) alex.val 0 hello) censored 0)
      alex
      (act invoke marshal (game_of ℕ) (pos 1) hello alex (censored, 0)).0
act-Cancelled_example = act-Cancelled invoke marshal (game_of ℕ) (pos 1) hello alex censored 0

-- The greeter listens to the chat, too.
abbrev listening : Dispatcher Handler
listening = subscribe insertion_sorter enabled_manager.dispatcher "player_chat" (record {
  plugin_id = "com.example";
  priority = pos 0;
  handler = record { plugin = 0; event = "player_chat" };
  ignore_cancelled = false;
})

abbrev store : Store String ℕ
store = (enabled_manager.heap, 9)

plugins_modify_nothing_example :
    ((handle_chat
        (handle env default_config)
        marshal
        (game_of (Store String ℕ))
        (pos 1)
        alex
        "hello"
        (listening, store)).0.1
      ≡ "hello")
    × ((handle_death
          (handle env default_config)
          marshal
          (game_of (Store String ℕ))
          (pos 1)
          "alex"
          fall
          true
          (listening, store)).0
        ≡ true)
plugins_modify_nothing_example =
    plugins_modify_nothing env default_config marshal (game_of (Store String ℕ)) (pos 1) listening
      store alex "hello" "alex" fall true
