-- ===== src/Handler/Calls.antt =====
-- internal/handler/handler.go: the events that a player's context can cancel, as values.
use dragonfly_wasm.Prelude.{ℕ, String, Bool, Option, List}
use dragonfly_wasm.Prelude.Int.{ℤ}
use dragonfly_wasm.Plugin.Manifest.{EventType}
use dragonfly_wasm.Events.{Dispatcher, HandlerReturn}
use dragonfly_wasm.Manager.Server.{Position}
use dragonfly_wasm.Manager.HostFunctions.Requests.{BlockPos}
use dragonfly_wasm.Handler.Json.{text, float, int, flag, object, array, Fields, end, field}
use dragonfly_wasm.Handler.Game.{Game, Stack, DamageSource, HealingSource}
use dragonfly_wasm.Handler.Payloads.{
  damage_source_to_string, healing_source_to_string, vec3_to_map, block_pos_to_map, player_to_map,
  block_to_map, entity_to_map, drops_data, broken_type, with_attacker,
}
use dragonfly_wasm.Handler.Dispatch.{
  Context, handle_chat, handle_move, handle_teleport, handle_toggle_sprint, handle_toggle_sneak,
  handle_hurt, handle_heal, handle_block_break, handle_block_place, handle_item_use,
  handle_item_use_on_block, handle_item_use_on_entity,
}

-- What a player is about to do.
pub data Action (B E I F : Type 0) : Type 0 where
  chats : (message : String) → Action B E I F
  moves : (pos : Position F) (yaw pitch : F) → Action B E I F
  teleports : (pos : Position F) → Action B E I F
  toggles_sprint toggles_sneak : (after : Bool) → Action B E I F
  is_hurt : (damage : F) (immune : Bool) (src : DamageSource E) → Action B E I F
  is_healed : (health : F) (src : HealingSource) → Action B E I F
  breaks_block : (pos : BlockPos) (drops : List (Stack I)) (xp : ℤ) → Action B E I F
  places_block : (pos : BlockPos) (b : Option B) → Action B E I F
  uses_item : Action B E I F
  uses_item_on_block : (pos : BlockPos) (face : ℤ) (click : Position F) → Action B E I F
  uses_item_on_entity : (e : E) → Action B E I F

-- The event of an action.
abbrev pub event_of : {B E I F : Type 0} → Action B E I F → EventType
event_of (chats message) = "player_chat"
event_of (moves pos yaw pitch) = "player_move"
event_of (teleports pos) = "player_teleport"
event_of (toggles_sprint after) = "player_sprint"
event_of (toggles_sneak after) = "player_sneak"
event_of (is_hurt damage immune src) = "player_hurt"
event_of (is_healed health src) = "player_heal"
event_of (breaks_block pos drops xp) = "block_break"
event_of (places_block pos b) = "block_place"
event_of uses_item = "item_use"
event_of (uses_item_on_block pos face click) = "item_use_on_block"
event_of (uses_item_on_entity e) = "item_use_on_entity"

module _ {W P B E I F : Type 0} (game : Game W P B E I F) (p : P) (w : W) where
  -- What every event but a move and a teleport begins with.
  abbrev pub of_player : Fields F → Fields F
  unfolding player_to_map
  of_player fields = field "player" (player_to_map game p w) fields

  -- The data of an action.
  abbrev pub payload : Action B E I F → Fields F
  unfolding damage_source_to_string healing_source_to_string with_attacker drops_data broken_type
      block_to_map entity_to_map
  payload (chats message) = of_player (field "message" (text message) end)
  payload (moves pos yaw pitch) =
      field "new_position" (vec3_to_map pos)
        (field "new_yaw" (float yaw) (field "new_pitch" (float pitch) end))
  payload (teleports pos) = field "to" (vec3_to_map pos) end
  payload (toggles_sprint after) = of_player (field "sprinting" (flag after) end)
  payload (toggles_sneak after) = of_player (field "sneaking" (flag after) end)
  payload (is_hurt damage immune src) =
      with_attacker game src
        (of_player (
          field "damage" (float damage) (
            field "immune" (flag immune)
              (field "damage_source" (text (damage_source_to_string src)) end))))
        w
  payload (is_healed health src) = of_player (
      field "amount" (float health) (field "heal_source" (text (healing_source_to_string src)) end))
  payload (breaks_block pos drops xp) = of_player (
      field "block"
        (object (
          field "block_type" (text (broken_type game (game.block_at p pos w)))
            (field "position" (block_pos_to_map pos) end)))
        (field "drops" (array (drops_data game drops)) (field "experience" (int xp) end)))
  payload (places_block pos b) = of_player (field "block" (block_to_map game b pos) end)
  payload uses_item = of_player end
  payload (uses_item_on_block pos face click) = of_player (
      field "position" (block_pos_to_map pos)
        (field "face" (int face) (field "click_position" (vec3_to_map click) end)))
  payload (uses_item_on_entity e) = of_player (field "target" (entity_to_map game e w) end)

module _ {H W P B E I F : Type 0} (invoke : H → List ℕ → W → HandlerReturn × W)
    (marshal : Fields F → Option (List ℕ)) (game : Game W P B E I F) (elapsed : ℤ) where
  -- The handler of an action. What it changes besides the context is left out.
  unfoldable pub act : Action B E I F → Context P → Dispatcher H × W → Context P × Dispatcher H × W
  unfolding handle_chat handle_move handle_teleport handle_toggle_sprint handle_toggle_sneak
      handle_hurt handle_heal handle_block_break handle_block_place handle_item_use
      handle_item_use_on_block handle_item_use_on_entity
  act (chats message) ctx s =
      let ((ctx', message'), d, w) = handle_chat invoke marshal game elapsed ctx message s in
      (ctx', d, w)
  act (moves pos yaw pitch) ctx s = handle_move invoke marshal game elapsed ctx pos yaw pitch s
  act (teleports pos) ctx s = handle_teleport invoke marshal game elapsed ctx pos s
  act (toggles_sprint after) ctx s = handle_toggle_sprint invoke marshal game elapsed ctx after s
  act (toggles_sneak after) ctx s = handle_toggle_sneak invoke marshal game elapsed ctx after s
  act (is_hurt damage immune src) ctx s =
      handle_hurt invoke marshal game elapsed ctx damage immune src s
  act (is_healed health src) ctx s = handle_heal invoke marshal game elapsed ctx health src s
  act (breaks_block pos drops xp) ctx s =
      handle_block_break invoke marshal game elapsed ctx pos drops xp s
  act (places_block pos b) ctx s = handle_block_place invoke marshal game elapsed ctx pos b s
  act uses_item ctx s = handle_item_use invoke marshal game elapsed ctx s
  act (uses_item_on_block pos face click) ctx s =
      handle_item_use_on_block invoke marshal game elapsed ctx pos face click s
  act (uses_item_on_entity e) ctx s = handle_item_use_on_entity invoke marshal game elapsed ctx e s
