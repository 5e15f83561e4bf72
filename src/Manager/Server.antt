-- ===== src/Manager/Server.antt =====
-- internal/manager/manager.go: the interfaces `ServerAPI`, `PlayerAPI` and `WorldAPI` by which the
-- manager reaches a server, over the server's state `W`, its players `P`, its worlds `D` and its
-- numbers `F` of type float64. Methods that answer a value only read the state. A world that a
-- method gives is not nil, unless it is an `Option`.
use dragonfly_wasm.Prelude.{String, Option, List, GoMap}
use dragonfly_wasm.Prelude.Int.{ℤ}

pub record Position (F : Type 0) : Type 0 where
  pub x : F
  pub y : F
  pub z : F

pub record PlayerApi (W P D F : Type 0) : Type 0 where
  pub uuid : P → W → String
  pub name : P → W → String
  pub send_message : P → String → W → W
  pub teleport : P → Position F → String → W → Option String × W
  pub kick : P → String → W → W
  pub set_health : P → F → W → W
  pub set_game_mode : P → ℤ → W → W
  pub position : P → W → Position F
  pub world : P → W → Option D

pub record WorldApi (W D : Type 0) : Type 0 where
  pub world_name : D → W → String
  pub get_block : D → ℤ → ℤ → ℤ → W → String × GoMap String
  pub set_block : D → ℤ → ℤ → ℤ → String → GoMap String → W → Option String × W

pub record ServerApi (W P D F : Type 0) : Type 0 where
  pub player : PlayerApi W P D F
  pub world : WorldApi W D
  pub get_player : String → W → Option P
  pub get_all_players : W → List P
  pub get_world : String → W → Option D
  pub get_default_world : W → D
  pub broadcast_message : String → W → W
