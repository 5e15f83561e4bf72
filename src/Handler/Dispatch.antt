-- ===== src/Handler/Dispatch.antt =====
-- internal/handler/handler.go: `dispatchEvent` and the handlers. A handler takes the event's context,
-- and gives it back with what it changed behind a pointer; `elapsed` is what the dispatcher's clock
-- answers. `marshal` is json.Marshal, which may fail.
use dragonfly_wasm.Prelude.{
  ℕ, String, Bool, true, false, not, Option, none, some, List, [], str_eq, if◌then◌else◌, GoMap,
  get, value_or,
}
use dragonfly_wasm.Prelude.Int.{ℤ}
use dragonfly_wasm.Plugin.Manifest.{EventType}
use dragonfly_wasm.Events.{Dispatcher, HandlerReturn, has_subscribers, dispatch}
use dragonfly_wasm.Manager.Server.{Position}
use dragonfly_wasm.Manager.HostFunctions.Requests.{BlockPos}
use dragonfly_wasm.Handler.Json.{text, float, int, flag, object, array, Fields, end, field}
use dragonfly_wasm.Handler.Game.{Game, Stack, DamageSource, HealingSource}
use dragonfly_wasm.Handler.Payloads.{
  damage_source_to_string, healing_source_to_string, vec3_to_map, block_pos_to_map, player_to_map,
  block_to_map, entity_to_map, drops_data, broken_type, with_attacker,
}

-- *player.Context: the player, and whether `Cancel` was called.
pub record Context (P : Type 0) : Type 0 where
  pub val : P
  pub cancelled : Bool

-- if cancelled { ctx.Cancel() }
abbrev pub cancel_if : {P : Type 0} → Bool → Context P → Context P
cancel_if cancelled ctx = if cancelled then record ctx { cancelled = true } else ctx

-- *keepInv = keep == "true"
abbrev pub keep_or : Option String → Bool → Bool
keep_or none keep_inv = keep_inv
keep_or (some keep) keep_inv = str_eq keep "true"

module _ {H W F : Type 0} (invoke : H → List ℕ → W → HandlerReturn × W)
    (marshal : Fields F → Option (List ℕ)) where
  unfoldable pub dispatch_marshaled :
      EventType → Option (List ℕ) → ℤ → Dispatcher H × W → (Bool × GoMap String) × Dispatcher H × W
  dispatch_marshaled event none elapsed (d, w) = ((false, []), d, w)
  dispatch_marshaled event (some json_data) elapsed (d, w) =
      let (result, d', w') = dispatch invoke d event json_data elapsed w in
      ((result.cancelled, result.modifications), d', w')

  unfoldable pub dispatch_event :
      EventType → Fields F → ℤ → Dispatcher H × W → (Bool × GoMap String) × Dispatcher H × W
  unfolding dispatch_marshaled
  dispatch_event event fields elapsed (d, w) =
      if not (has_subscribers d event)
      then ((false, []), d, w)
      else dispatch_marshaled event (marshal fields) elapsed (d, w)

  module _ {P B E I : Type 0} (game : Game W P B E I F) (elapsed : ℤ) where
    -- if cancelled, _ := h.dispatchEvent(...); cancelled { ctx.Cancel() }
    unfoldable pub dispatch_cancellable :
        EventType → Fields F → Context P → Dispatcher H × W → Context P × Dispatcher H × W
    unfolding dispatch_event
    dispatch_cancellable event fields ctx s =
        let ((cancelled, mods), d', w') = dispatch_event event fields elapsed s in
        (cancel_if cancelled ctx, d', w')

    unfoldable pub handle_chat :
        Context P → String → Dispatcher H × W → (Context P × String) × Dispatcher H × W
    unfolding dispatch_event player_to_map
    handle_chat ctx message (d, w) =
        let ((cancelled, mods), d', w') =
          dispatch_event "player_chat"
            (field "player" (player_to_map game ctx.val w) (field "message" (text message) end))
            elapsed (d, w) in
        ((cancel_if cancelled ctx, value_or (get mods "message") message), d', w')

    unfoldable pub handle_move :
        Context P → Position F → F → F → Dispatcher H × W → Context P × Dispatcher H × W
    unfolding dispatch_cancellable
    handle_move ctx new_pos new_yaw new_pitch (d, w) =
        dispatch_cancellable "player_move"
          (field "new_position" (vec3_to_map new_pos)
            (field "new_yaw" (float new_yaw) (field "new_pitch" (float new_pitch) end)))
          ctx (d, w)

    unfoldable pub handle_teleport :
        Context P → Position F → Dispatcher H × W → Context P × Dispatcher H × W
    unfolding dispatch_cancellable
    handle_teleport ctx pos (d, w) =
        dispatch_cancellable "player_teleport" (field "to" (vec3_to_map pos) end) ctx (d, w)

    unfoldable pub handle_jump : P → Dispatcher H × W → Dispatcher H × W
    unfolding dispatch_event player_to_map
    handle_jump p (d, w) =
        let (answer, d', w') =
          dispatch_event "player_jump" (field "player" (player_to_map game p w) end) elapsed
            (d, w) in
        (d', w')

    unfoldable pub handle_toggle_sprint :
        Context P → Bool → Dispatcher H × W → Context P × Dispatcher H × W
    unfolding dispatch_cancellable player_to_map
    handle_toggle_sprint ctx after (d, w) =
        dispatch_cancellable "player_sprint"
          (field "player" (player_to_map game ctx.val w) (field "sprinting" (flag after) end)) ctx
          (d, w)

    unfoldable pub handle_toggle_sneak :
        Context P → Bool → Dispatcher H × W → Context P × Dispatcher H × W
    unfolding dispatch_cancellable player_to_map
    handle_toggle_sneak ctx after (d, w) =
        dispatch_cancellable "player_sneak"
          (field "player" (player_to_map game ctx.val w) (field "sneaking" (flag after) end)) ctx
          (d, w)

    unfoldable pub handle_death :
        P → DamageSource E → Bool → Dispatcher H × W → Bool × Dispatcher H × W
    unfolding dispatch_event player_to_map damage_source_to_string
    handle_death p src keep_inv (d, w) =
        let ((cancelled, mods), d', w') =
          dispatch_event "player_death"
            (field "player" (player_to_map game p w) (
              field "damage_source" (text (damage_source_to_string src))
                (field "keep_inventory" (flag keep_inv) end)))
            elapsed (d, w) in
        (keep_or (get mods "keep_inventory") keep_inv, d', w')

    unfoldable pub handle_respawn : P → Position F → Dispatcher H × W → Dispatcher H × W
    unfolding dispatch_event player_to_map
    handle_respawn p pos (d, w) =
        let (answer, d', w') =
          dispatch_event "player_respawn"
            (field "player" (player_to_map game p w) (field "spawn_position" (vec3_to_map pos) end))
            elapsed (d, w) in
        (d', w')

    unfoldable pub handle_hurt :
        Context P → F → Bool → DamageSource E → Dispatcher H × W → Context P × Dispatcher H × W
    unfolding dispatch_cancellable player_to_map damage_source_to_string with_attacker
    handle_hurt ctx damage immune src (d, w) =
        let event_data = field "player" (player_to_map game ctx.val w) (
          field "damage" (float damage) (
            field "immune" (flag immune)
              (field "damage_source" (text (damage_source_to_string src)) end))) in
        dispatch_cancellable "player_hurt" (with_attacker game src event_data w) ctx (d, w)

    unfoldable pub handle_heal :
        Context P → F → HealingSource → Dispatcher H × W → Context P × Dispatcher H × W
    unfolding dispatch_cancellable player_to_map healing_source_to_string
    handle_heal ctx health src (d, w) =
        dispatch_cancellable "player_heal"
          (field "player" (player_to_map game ctx.val w) (
            field "amount" (float health)
              (field "heal_source" (text (healing_source_to_string src)) end)))
          ctx (d, w)

    unfoldable pub handle_block_break :
        Context P → BlockPos → List (Stack I) → ℤ → Dispatcher H × W → Context P × Dispatcher H × W
    unfolding dispatch_cancellable player_to_map drops_data broken_type
    handle_block_break ctx pos drops xp (d, w) =
        let block_type = broken_type game (game.block_at ctx.val pos w) in
        dispatch_cancellable "block_break"
          (field "player" (player_to_map game ctx.val w) (
            field "block"
              (object (
                field "block_type" (text block_type) (field "position" (block_pos_to_map pos) end)))
              (field "drops" (array (drops_data game drops)) (field "experience" (int xp) end))))
          ctx (d, w)

    unfoldable pub handle_block_place :
        Context P → BlockPos → Option B → Dispatcher H × W → Context P × Dispatcher H × W
    unfolding dispatch_cancellable player_to_map block_to_map
    handle_block_place ctx pos b (d, w) =
        dispatch_cancellable "block_place"
          (field "player" (player_to_map game ctx.val w)
            (field "block" (block_to_map game b pos) end))
          ctx (d, w)

    unfoldable pub handle_item_use : Context P → Dispatcher H × W → Context P × Dispatcher H × W
    unfolding dispatch_cancellable player_to_map
    handle_item_use ctx (d, w) =
        dispatch_cancellable "item_use" (field "player" (player_to_map game ctx.val w) end) ctx
          (d, w)

    unfoldable pub handle_item_use_on_block :
        Context P → BlockPos → ℤ → Position F → Dispatcher H × W → Context P × Dispatcher H × W
    unfolding dispatch_cancellable player_to_map
    handle_item_use_on_block ctx pos face click_pos (d, w) =
        dispatch_cancellable "item_use_on_block"
          (field "player" (player_to_map game ctx.val w) (
            field "position" (block_pos_to_map pos)
              (field "face" (int face) (field "click_position" (vec3_to_map click_pos) end))))
          ctx (d, w)

    unfoldable pub handle_item_use_on_entity :
        Context P → E → Dispatcher H × W → Context P × Dispatcher H × W
    unfolding dispatch_cancellable player_to_map entity_to_map
    handle_item_use_on_entity ctx e (d, w) =
        dispatch_cancellable "item_use_on_entity"
          (field "player" (player_to_map game ctx.val w)
            (field "target" (entity_to_map game e w) end))
          ctx (d, w)
