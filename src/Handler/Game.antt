-- ===== src/Handler/Game.antt =====
-- What internal/handler/handler.go reads of the Dragonfly server: an interface over its state `W`,
-- players `P`, blocks `B`, entities `E`, items `I` and numbers `F` of type float64. A nil block,
-- item or entity, and the world of a player without a transaction, are `none`.
use dragonfly_wasm.Prelude.{String, Bool, Option, GoMap}
use dragonfly_wasm.Prelude.Int.{ℤ}
use dragonfly_wasm.Manager.Server.{Position}
use dragonfly_wasm.Manager.HostFunctions.Requests.{BlockPos}

-- A value of an item's NBT, of type `any`.
pub data NbtValue : Type 0 where
  name : String → NbtValue
  other : NbtValue

pub record Stack (I : Type 0) : Type 0 where
  pub item : Option I
  pub is_empty : Bool
  pub count : ℤ

-- `world.DamageSource`, whose other implementations are `other`.
pub data DamageSource (E : Type 0) : Type 0 where
  attack : (attacker : Option E) → DamageSource E
  fall glide void suffocation drowning explosion lightning projectile other : DamageSource E

pub data HealingSource : Type 0 where
  food other : HealingSource

pub record Game (W P B E I F : Type 0) : Type 0 where
  pub uuid : P → W → String
  pub player_name : P → W → String
  pub xuid : P → W → String
  pub position : P → W → Position F
  pub yaw : P → W → F
  pub pitch : P → W → F
  pub world_name : P → W → Option String
  pub health : P → W → F
  pub max_health : P → W → F
  pub block_at : P → BlockPos → W → Option (Option B)
  pub encode_block : B → String
  pub encode_nbt : I → Option (GoMap NbtValue)
  pub as_player : E → Option P
  pub entity_position : E → W → Position F
  pub entity_yaw : E → W → F
  pub entity_pitch : E → W → F
