-- ===== src/Manager/HostFunctions/Commands.antt =====
-- internal/manager/hostfuncs.go: what the host functions that act on the server ask of it, as one
-- function on commands.
use dragonfly_wasm.Prelude.{
  ℕ, ◌≡◌, String, Bool, true, false, Option, none, some, List, GoMap, arith,
}
use dragonfly_wasm.Prelude.Int.{ℤ}
use dragonfly_wasm.Prelude.Results.{Result, ok, err}
use dragonfly_wasm.Manager.Server.{ServerApi, Position}
use dragonfly_wasm.Manager.HostFunctions.{
  HostFunction, log, broadcast, send_message, get_player, get_online_players, teleport_player,
  kick_player, set_player_health, set_player_gamemode, get_block, set_block, run,
}
use dragonfly_wasm.Manager.HostFunctions.Requests.{Codec, BlockPos}
use dragonfly_wasm.Manager.HostFunctions.Calls.{HostState, Env}
use dragonfly_wasm.Manager.HostFunctions.Players.{
  host_broadcast, host_send_message, host_teleport_player, host_kick_player, host_set_player_health,
  host_set_player_gamemode,
}
use dragonfly_wasm.Manager.HostFunctions.Blocks.{host_set_block}

pub data PlayerCommand (F : Type 0) : Type 0 where
  message : String → PlayerCommand F
  teleport : Position F → String → PlayerCommand F
  kick : String → PlayerCommand F
  health : F → PlayerCommand F
  game_mode : ℤ → PlayerCommand F

pub data Command (F : Type 0) : Type 0 where
  say : String → Command F
  on_player : String → PlayerCommand F → Command F
  place : String → BlockPos → String → GoMap String → Command F

abbrev pub mapped : {A B : Type 0} → Result A → (A → B) → Option B
mapped (ok a) f = some (f a)
mapped (err e) f = none

module _ {F F32 : Type 0} (codec : Codec F F32) where
  -- The command in the bytes of a request; the other functions have none.
  abbrev pub decode : HostFunction → List ℕ → Option (Command F)
  decode broadcast bytes = mapped (codec.broadcast_request bytes) (λ r. say r.message)
  decode send_message bytes =
      mapped (codec.send_message_request bytes) (λ r. on_player r.player_uuid (message r.message))
  decode teleport_player bytes =
      mapped (codec.teleport_request bytes)
        (λ r. on_player r.player_uuid (teleport r.position r.world_name))
  decode kick_player bytes =
      mapped (codec.kick_request bytes) (λ r. on_player r.player_uuid (kick r.reason))
  decode set_player_health bytes =
      mapped (codec.set_health_request bytes)
        (λ r. on_player r.player_uuid (health (codec.float64 r.health)))
  decode set_player_gamemode bytes =
      mapped (codec.set_gamemode_request bytes)
        (λ r. on_player r.player_uuid (game_mode r.gamemode))
  decode set_block bytes =
      mapped (codec.set_block_request bytes)
        (λ r. place r.world_name r.position r.block_type r.properties)
  decode _ bytes = none

abbrev pub is_command : HostFunction → Bool
is_command log = false
is_command get_player = false
is_command get_online_players = false
is_command get_block = false
is_command _ = true

module _ {W P D F : Type 0} (api : ServerApi W P D F) where
  abbrev pub on_one : P → PlayerCommand F → W → Option String × W
  on_one p (message text) w = (none, api.player.send_message p text w)
  on_one p (teleport pos world) w = api.player.teleport p pos world w
  on_one p (kick reason) w = (none, api.player.kick p reason w)
  on_one p (health h) w = (none, api.player.set_health p h w)
  on_one p (game_mode mode) w = (none, api.player.set_game_mode p mode w)

  abbrev pub on_found : Option P → PlayerCommand F → W → Option String × W
  on_found none c w = (some "player not found", w)
  on_found (some p) c w = on_one p c w

  abbrev pub world_or_default : Option D → W → D
  world_or_default none w = api.get_default_world w
  world_or_default (some d) w = d

  -- The command on the server: its error, and the server afterwards.
  abbrev pub perform : Command F → W → Option String × W
  perform (say text) w = (none, api.broadcast_message text w)
  perform (on_player uuid c) w = on_found (api.get_player uuid w) c w
  perform (place name pos type properties) w =
      api.world.set_block (world_or_default (api.get_world name w) w) pos.x pos.y pos.z type
        properties w

abbrev pub perform_on :
    {W P D F : Type 0} → Option (ServerApi W P D F) → Command F → W → Option String × W
perform_on none (say text) w = (none, w)
perform_on none c w = (some "server API not available", w)
perform_on (some api) c w = perform api c w

abbrev pub carry_out :
    {W P D F : Type 0} → Option (ServerApi W P D F) → Option (Command F) → W → Option String × W
carry_out api none w = (some "no command", w)
carry_out api (some c) w = perform_on api c w

abbrev pub decoded :
    {F F32 : Type 0} → Codec F F32 → HostFunction → Result (List ℕ) → Option (Command F)
decoded codec f (ok bytes) = decode codec f bytes
decoded codec f (err e) = none

abbrev pub word : Option String → ℕ
word none = 1
word (some e) = 0

module _ {W P D F F32 M : Type 0} (env : Env W P D F F32 M) (slot : ℕ) (s : HostState W M) where
  -- What a command function has to do: read and decode the request, and perform the command.
  abbrev pub requested : HostFunction → Option String × W
  requested f =
      carry_out env.server_api (decoded env.codec f (env.plugin.read_bytes slot s.memory)) s.server

  -- Whatever the bytes, a host function that acts on the server leaves the server in the state in
  -- which the command that the bytes decode to leaves it, and the plugin's memory alone. It answers
  -- 1 if there is such a command and the server took it without an error, and 0 otherwise.
  pub run-requested :
      (f : HostFunction)
      → is_command f ≡ true
      → ((run env f slot s).0 ≡ word (requested f).0)
        × ((run env f slot s).1.server ≡ (requested f).1)
        × ((run env f slot s).1.memory ≡ s.memory)
  unfolding run host_broadcast host_send_message host_teleport_player host_kick_player
      host_set_player_health host_set_player_gamemode host_set_block
  run-requested broadcast h = ground arith
  run-requested send_message h = ground arith
  run-requested teleport_player h = ground arith
  run-requested kick_player h = ground arith
  run-requested set_player_health h = ground arith
  run-requested set_player_gamemode h = ground arith
  run-requested set_block h = ground arith
  run-requested log h = cc
  run-requested get_player h = cc
  run-requested get_online_players h = cc
  run-requested get_block h = cc
