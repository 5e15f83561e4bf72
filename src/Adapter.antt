-- ===== src/Adapter.antt =====
-- internal/adapter/adapter.go: the `ServerAPI` of the manager over a Dragonfly server, which is an
-- interface here: on its state `W`, players `P`, worlds `D`, blocks `B`, game modes `G` and numbers
-- `F` of type float64. The state of the adapter is the map of the players by their UUIDs, a sync.Map.
pub mod Effects
mod Examples
use dragonfly_wasm.Prelude.{
  ℕ, String, Bool, true, false, ◌&&◌, Option, none, some, List, [], ◌∷◌, str_eq, if◌then◌else◌,
  GoMap, get, put, delete,
}
use dragonfly_wasm.Prelude.Int.{ℤ}
use dragonfly_wasm.Manager.Server.{Position, PlayerApi, WorldApi, ServerApi}
use dragonfly_wasm.Manager.HostFunctions.Requests.{BlockPos}

-- A player's UUID never changes, and the server always has its overworld. A nil block, world or
-- transaction is `none`.
pub record Dragonfly (W P D B G F : Type 0) : Type 0 where
  pub uuid : P → String
  pub player_name : P → W → String
  pub message : P → String → W → W
  pub disconnect : P → String → W → W
  pub teleport : P → Position F → W → W
  pub health : P → W → F
  pub heal : P → F → W → W
  pub set_game_mode : P → G → W → W
  pub position : P → W → Position F
  pub world_of : P → W → Option D
  pub overworld : W → D
  pub nether : W → Option D
  pub the_end : W → Option D
  pub world_name : D → W → String
  pub block_at : D → BlockPos → W → Option B
  pub encode_block : B → String
  pub set_block : D → BlockPos → B → W → W
  pub game_mode_by_id : ℤ → Option G
  pub survival : G
  -- x > y, and x - y
  pub is_greater : F → F → Bool
  pub minus : F → F → F

module _ {W P D B G F : Type 0} (game : Dragonfly W P D B G F) where
  -- The players of the adapter, and the server.
  abbrev pub State : Type 0
  State = GoMap P × W

  unfoldable pub track_player : P → State → State
  track_player p (players, w) = (put players (game.uuid p) p, w)

  unfoldable pub untrack_player : P → State → State
  untrack_player p (players, w) = (delete players (game.uuid p), w)

  abbrev pub values : GoMap P → List P
  values [] = []
  values ((k, p) ∷ players) = p ∷ values players

  abbrev pub get_player : String → State → Option P
  get_player uuid (players, w) = get players uuid

  -- The loop of `GetWorld`.
  unfoldable pub find_world : List (Option D) → String → W → Option D
  find_world [] name w = none
  find_world (none ∷ worlds) name w = find_world worlds name w
  find_world (some d ∷ worlds) name w =
      if str_eq (game.world_name d w) name then some d else find_world worlds name w

  unfoldable pub get_world : String → State → Option D
  unfolding find_world
  get_world name (players, w) =
      find_world (some (game.overworld w) ∷ game.nether w ∷ game.the_end w ∷ []) name w

  abbrev pub message_each : List P → String → W → W
  message_each [] msg w = w
  message_each (p ∷ players) msg w = message_each players msg (game.message p msg w)

  abbrev pub broadcast_message : String → State → State
  broadcast_message msg (players, w) = (players, message_each (values players) msg w)

  unfoldable pub set_health : P → F → State → State
  set_health p health (players, w) =
      let current = game.health p w in
      if game.is_greater health current
      then (players, game.heal p (game.minus health current) w)
      else (players, w)

  abbrev pub mode_or_survival : Option G → G
  mode_or_survival (some gm) = gm
  mode_or_survival none = game.survival

  abbrev pub set_game_mode : P → ℤ → State → State
  set_game_mode p mode (players, w) =
      (players, game.set_game_mode p (mode_or_survival (game.game_mode_by_id mode)) w)

  abbrev pub block_or_air : Option B → String
  block_or_air (some b) = game.encode_block b
  block_or_air none = "air"

  abbrev pub get_block : D → ℤ → ℤ → ℤ → State → String × GoMap String
  get_block d x y z (players, w) =
      (block_or_air (game.block_at d (record { x = x; y = y; z = z }) w), [])

  -- blockByName(_ string)
  unfoldable pub block_by_name : String → Option B
  block_by_name name = none

  unfoldable pub set_named : Option B → D → BlockPos → State → Option String × State
  set_named none d pos s = (none, s)
  set_named (some block) d pos (players, w) = (none, (players, game.set_block d pos block w))

  unfoldable pub set_block : D → ℤ → ℤ → ℤ → String → GoMap String → State → Option String × State
  unfolding set_named block_by_name
  set_block d x y z block_type properties s =
      set_named (block_by_name block_type) d (record { x = x; y = y; z = z }) s

  unfoldable pub player_adapter : PlayerApi State P D F
  unfolding set_health
  player_adapter = record {
    uuid = λ p s. game.uuid p;
    name = λ p s. game.player_name p s.1;
    send_message = λ p msg s. (s.0, game.message p msg s.1);
    teleport = λ p pos name s. (none, (s.0, game.teleport p pos s.1));
    kick = λ p reason s. (s.0, game.disconnect p reason s.1);
    set_health = set_health;
    set_game_mode = set_game_mode;
    position = λ p s. game.position p s.1;
    world = λ p s. game.world_of p s.1;
  }

  unfoldable pub world_adapter : WorldApi State D
  unfolding set_block
  world_adapter = record {
    world_name = λ d s. game.world_name d s.1;
    get_block = get_block;
    set_block = set_block;
  }

  unfoldable pub adapter : ServerApi State P D F
  unfolding find_world get_world set_health set_block player_adapter world_adapter
  adapter = record {
    player = player_adapter;
    world = world_adapter;
    get_player = get_player;
    get_all_players = λ s. values s.0;
    get_world = get_world;
    get_default_world = λ s. game.overworld s.1;
    broadcast_message = broadcast_message;
  }
