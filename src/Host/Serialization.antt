-- ===== src/Host/Serialization.antt =====
-- pkg/host/serialization.go: the requests of plugins and what becomes of their JSON. Errors of the
-- codec are ignored: a request keeps the zero values where its JSON could not be read. `F` and
-- `F32` are the types float64 and float32.
use dragonfly_wasm.Prelude.{ℕ, String, List, [], GoMap}
use dragonfly_wasm.Prelude.Int.{ℤ, pos}

-- pkg/host/functions.go
pub record PlayerInfo (F F32 : Type 0) : Type 0 where
  pub uuid : String
  pub name : String
  pub xuid : String
  pub x : F
  pub y : F
  pub z : F
  pub yaw : F32
  pub pitch : F32
  pub world_name : String
  pub game_mode : ℤ
  pub health : F32
  pub max_health : F32

pub record BlockInfo : Type 0 where
  pub block_type : String
  pub x : ℤ
  pub y : ℤ
  pub z : ℤ
  pub properties : GoMap String

pub record TeleportRequest (F : Type 0) : Type 0 where
  pub uuid : String
  pub x : F
  pub y : F
  pub z : F
  pub world : String

pub record GiveItemRequest : Type 0 where
  pub uuid : String
  pub item_type : String
  pub count : ℤ
  pub metadata : GoMap String

pub record GetBlockRequest : Type 0 where
  pub world : String
  pub x : ℤ
  pub y : ℤ
  pub z : ℤ

pub record SetBlockRequest : Type 0 where
  pub world : String
  pub x : ℤ
  pub y : ℤ
  pub z : ℤ
  pub block_type : String
  pub properties : GoMap String

pub record ScheduleTaskRequest : Type 0 where
  pub task_id : String
  pub delay_ms : ℤ
  pub payload : List ℕ

-- encoding/json: the bytes that Marshal gives, and the request that Unmarshal leaves in a variable
-- that held the given one; and the numbers of Go.
pub record Codec (F F32 : Type 0) : Type 0 where
  pub marshal_player : PlayerInfo F F32 → List ℕ
  pub marshal_players : List (PlayerInfo F F32) → List ℕ
  pub marshal_block : BlockInfo → List ℕ
  pub unmarshal_teleport : List ℕ → TeleportRequest F → TeleportRequest F
  pub unmarshal_give_item : List ℕ → GiveItemRequest → GiveItemRequest
  pub unmarshal_get_block : List ℕ → GetBlockRequest → GetBlockRequest
  pub unmarshal_set_block : List ℕ → SetBlockRequest → SetBlockRequest
  pub unmarshal_schedule_task : List ℕ → ScheduleTaskRequest → ScheduleTaskRequest
  pub zero_float : F
  -- float32(x), for x of type uint64
  pub float32_of : ℕ → F32

module _ {F F32 : Type 0} (codec : Codec F F32) where
  abbrev pub serialize_player_info : PlayerInfo F F32 → List ℕ
  serialize_player_info p = codec.marshal_player p

  abbrev pub serialize_player_info_list : List (PlayerInfo F F32) → List ℕ
  serialize_player_info_list players = codec.marshal_players players

  abbrev pub serialize_block_info : BlockInfo → List ℕ
  serialize_block_info b = codec.marshal_block b

  abbrev pub deserialize_teleport_request : List ℕ → TeleportRequest F
  deserialize_teleport_request bytes = codec.unmarshal_teleport bytes (record {
    uuid = "";
    x = codec.zero_float;
    y = codec.zero_float;
    z = codec.zero_float;
    world = "";
  })

  abbrev pub deserialize_give_item_request : List ℕ → GiveItemRequest
  deserialize_give_item_request bytes =
      codec.unmarshal_give_item bytes
        (record { uuid = ""; item_type = ""; count = pos 0; metadata = [] })

  abbrev pub deserialize_get_block_request : List ℕ → GetBlockRequest
  deserialize_get_block_request bytes =
      codec.unmarshal_get_block bytes (record { world = ""; x = pos 0; y = pos 0; z = pos 0 })

  abbrev pub deserialize_set_block_request : List ℕ → SetBlockRequest
  deserialize_set_block_request bytes =
      codec.unmarshal_set_block bytes
        (record { world = ""; x = pos 0; y = pos 0; z = pos 0; block_type = ""; properties = [] })

  abbrev pub deserialize_schedule_task_request : List ℕ → ScheduleTaskRequest
  deserialize_schedule_task_request bytes =
      codec.unmarshal_schedule_task bytes (record { task_id = ""; delay_ms = pos 0; payload = [] })
