-- ===== src/Handler/Payloads.antt =====
-- internal/handler/handler.go: the data of the events.
use dragonfly_wasm.Prelude.{
  String, not, Option, none, some, List, [], ◌∷◌, if◌then◌else◌, GoMap, get, value_or,
}
use dragonfly_wasm.Manager.Server.{Position}
use dragonfly_wasm.Manager.HostFunctions.Requests.{BlockPos}
use dragonfly_wasm.Handler.Json.{
  Json, text, float, int, object, Fields, end, field, Items, nil, item, set_field,
}
use dragonfly_wasm.Handler.Game.{
  Game, NbtValue, name, other, Stack, DamageSource, attack, fall, glide, void, suffocation,
  drowning, explosion, lightning, projectile, HealingSource, food,
}

unfoldable pub damage_source_to_string : {E : Type 0} → DamageSource E → String
damage_source_to_string (attack attacker) = "attack"
damage_source_to_string fall = "fall"
damage_source_to_string glide = "glide"
damage_source_to_string void = "void"
damage_source_to_string suffocation = "suffocation"
damage_source_to_string drowning = "drowning"
damage_source_to_string explosion = "explosion"
damage_source_to_string lightning = "lightning"
damage_source_to_string projectile = "projectile"
damage_source_to_string other = "unknown"

unfoldable pub healing_source_to_string : HealingSource → String
healing_source_to_string food = "food"
healing_source_to_string other = "unknown"

-- A type assertion to string of the value of a key.
unfoldable pub name_or_unknown : Option NbtValue → String
name_or_unknown (some (name s)) = s
name_or_unknown (some other) = "unknown"
name_or_unknown none = "unknown"

module _ {F : Type 0} where
  abbrev pub vec3_to_map : Position F → Json F
  vec3_to_map v = object (field "x" (float v.x) (field "y" (float v.y) (field "z" (float v.z) end)))

  abbrev pub block_pos_to_map : BlockPos → Json F
  block_pos_to_map pos =
      object (field "x" (int pos.x) (field "y" (int pos.y) (field "z" (int pos.z) end)))

module _ {W P B E I F : Type 0} (game : Game W P B E I F) where
  unfoldable pub player_to_map : P → W → Json F
  player_to_map p w = object (
      field "uuid" (text (game.uuid p w)) (
        field "name" (text (game.player_name p w)) (
          field "xuid" (text (game.xuid p w)) (
            field "position" (vec3_to_map (game.position p w)) (
              field "yaw" (float (game.yaw p w)) (
                field "pitch" (float (game.pitch p w)) (
                  field "world_name" (text (value_or (game.world_name p w) "")) (
                    field "health" (float (game.health p w))
                      (field "max_health" (float (game.max_health p w)) end)))))))))

  unfoldable pub encoded_name : Option (GoMap NbtValue) → String
  unfolding name_or_unknown
  encoded_name none = "unknown"
  encoded_name (some nbt) = name_or_unknown (get nbt "name")

  unfoldable pub item_type_name : Option I → String
  unfolding encoded_name
  item_type_name none = "air"
  item_type_name (some i) = encoded_name (game.encode_nbt i)

  unfoldable pub item_to_map : Stack I → Json F
  unfolding item_type_name
  item_to_map stack =
      let item_type = if not stack.is_empty then item_type_name stack.item else "air" in
      object (field "item_type" (text item_type) (field "count" (int stack.count) end))

  unfoldable pub block_type_name : Option B → String
  block_type_name none = "air"
  block_type_name (some b) = game.encode_block b

  unfoldable pub block_to_map : Option B → BlockPos → Json F
  unfolding block_type_name
  block_to_map b pos =
      object (
        field "block_type" (text (block_type_name b)) (field "position" (block_pos_to_map pos) end))

  unfoldable pub as_player_entity : Option P → Fields F → W → Fields F
  unfolding set_field
  as_player_entity none fields w = fields
  as_player_entity (some p) fields w =
      set_field (set_field fields "uuid" (text (game.uuid p w))) "entity_type" (text "player")

  unfoldable pub entity_to_map : E → W → Json F
  unfolding as_player_entity
  entity_to_map e w = object (
      as_player_entity (game.as_player e)
        (field "entity_type" (text "entity") (
          field "position" (vec3_to_map (game.entity_position e w)) (
            field "yaw" (float (game.entity_yaw e w))
              (field "pitch" (float (game.entity_pitch e w)) end))))
        w)

  -- The loop that fills `dropsData`.
  unfoldable pub drops_data : List (Stack I) → Items F
  unfolding item_to_map
  drops_data [] = nil
  drops_data (stack ∷ drops) = item (item_to_map stack) (drops_data drops)

  -- The type of a block that is broken, without a transaction the empty text.
  unfoldable pub broken_type : Option (Option B) → String
  unfolding block_type_name
  broken_type none = ""
  broken_type (some b) = block_type_name b

  unfoldable pub with_attacker : DamageSource E → Fields F → W → Fields F
  unfolding set_field entity_to_map
  with_attacker (attack (some e)) fields w = set_field fields "attacker" (entity_to_map e w)
  with_attacker _ fields w = fields
