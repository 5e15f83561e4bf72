-- ===== src/Manager/HostFunctions.antt =====
-- internal/manager/hostfuncs.go: the functions that the manager exports to plugins, as the list
-- that `createHostFunctions` makes and as one function that calls any of them.
pub mod Requests
pub mod Calls
pub mod Players
pub mod Blocks
pub mod Commands
pub mod Replies
mod Examples
use dragonfly_wasm.Prelude.{ℕ, String, List, [], ◌∷◌}
use dragonfly_wasm.Manager.HostFunctions.Calls.{HostState, Env, Call, called}
use dragonfly_wasm.Manager.HostFunctions.Players.{
  host_log, host_broadcast, host_send_message, host_get_player, host_get_online_players,
  host_teleport_player, host_kick_player, host_set_player_health, host_set_player_gamemode,
}
use dragonfly_wasm.Manager.HostFunctions.Blocks.{host_get_block, host_set_block}

pub data HostFunction : Type 0 where
  log broadcast send_message get_player get_online_players teleport_player kick_player :
      HostFunction
  set_player_health set_player_gamemode get_block set_block : HostFunction

-- The name under which a function is registered.
abbrev pub export_name : HostFunction → String
export_name log = "host_log"
export_name broadcast = "host_broadcast"
export_name send_message = "host_send_message"
export_name get_player = "host_get_player"
export_name get_online_players = "host_get_online_players"
export_name teleport_player = "host_teleport_player"
export_name kick_player = "host_kick_player"
export_name set_player_health = "host_set_player_health"
export_name set_player_gamemode = "host_set_player_gamemode"
export_name get_block = "host_get_block"
export_name set_block = "host_set_block"

abbrev pub create_host_functions : List HostFunction
create_host_functions =
    log ∷ broadcast ∷ send_message ∷ get_player ∷ get_online_players ∷ teleport_player ∷ kick_player
    ∷ set_player_health ∷ set_player_gamemode ∷ get_block ∷ set_block ∷ []

module _ {W P D F F32 M : Type 0} (env : Env W P D F F32 M) where
  abbrev pub body : HostFunction → ℕ → Call W M ℕ
  body log = host_log env
  body broadcast = host_broadcast env
  body send_message = host_send_message env
  body get_player = host_get_player env
  body get_online_players = host_get_online_players env
  body teleport_player = host_teleport_player env
  body kick_player = host_kick_player env
  body set_player_health = host_set_player_health env
  body set_player_gamemode = host_set_player_gamemode env
  body get_block = host_get_block env
  body set_block = host_set_block env

  -- A call by a plugin with `slot` in `stack[0]`: what `stack[0]` holds at the end, and the state.
  unfoldable pub run : HostFunction → ℕ → HostState W M → ℕ × HostState W M
  run f slot s = called (body f slot s)
