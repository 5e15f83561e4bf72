-- ===== src/Manager/HostFunctions/Requests.antt =====
-- internal/manager/hostfuncs.go: the requests that plugins send and the responses that they get,
-- and what encoding/json makes of them. `F` and `F32` are the types float64 and float32.
use dragonfly_wasm.Prelude.{ℕ, String, List, GoMap}
use dragonfly_wasm.Prelude.Int.{ℤ}
use dragonfly_wasm.Prelude.Results.{Result}
use dragonfly_wasm.Manager.Server.{Position}

pub record LogRequest : Type 0 where
  pub level : String
  pub message : String

pub record BroadcastRequest : Type 0 where
  pub message : String

pub record SendMessageRequest : Type 0 where
  pub player_uuid : String
  pub message : String

pub record GetPlayerRequest : Type 0 where
  pub player_uuid : String

pub record PlayerResponse (F : Type 0) : Type 0 where
  pub uuid : String
  pub name : String
  pub world_name : String
  pub position : Position F
  pub error : String

pub record BlockPos : Type 0 where
  pub x : ℤ
  pub y : ℤ
  pub z : ℤ

pub record PlayersResponse (F : Type 0) : Type 0 where
  pub players : List (PlayerResponse F)

pub record TeleportRequest (F : Type 0) : Type 0 where
  pub player_uuid : String
  pub position : Position F
  pub world_name : String

pub record KickRequest : Type 0 where
  pub player_uuid : String
  pub reason : String

pub record SetHealthRequest (F32 : Type 0) : Type 0 where
  pub player_uuid : String
  pub health : F32

pub record SetGamemodeRequest : Type 0 where
  pub player_uuid : String
  pub gamemode : ℤ

pub record GetBlockRequest : Type 0 where
  pub world_name : String
  pub position : BlockPos

pub record BlockResponse : Type 0 where
  pub block_type : String
  pub position : BlockPos
  pub properties : GoMap String
  pub error : String

pub record SetBlockRequest : Type 0 where
  pub world_name : String
  pub position : BlockPos
  pub block_type : String
  pub properties : GoMap String

-- What `writeJSON` is given: the two responses, the list of players, and the map of `writeError`.
pub data Response (F : Type 0) : Type 0 where
  player : PlayerResponse F → Response F
  players : PlayersResponse F → Response F
  block : BlockResponse → Response F
  failure : String → Response F

pub record Codec (F F32 : Type 0) : Type 0 where
  -- json.Unmarshal, for each type of request
  pub log_request : List ℕ → Result LogRequest
  pub broadcast_request : List ℕ → Result BroadcastRequest
  pub send_message_request : List ℕ → Result SendMessageRequest
  pub get_player_request : List ℕ → Result GetPlayerRequest
  pub teleport_request : List ℕ → Result (TeleportRequest F)
  pub kick_request : List ℕ → Result KickRequest
  pub set_health_request : List ℕ → Result (SetHealthRequest F32)
  pub set_gamemode_request : List ℕ → Result SetGamemodeRequest
  pub get_block_request : List ℕ → Result GetBlockRequest
  pub set_block_request : List ℕ → Result SetBlockRequest
  -- json.Marshal
  pub marshal : Response F → Result (List ℕ)
  -- float64(x)
  pub float64 : F32 → F
