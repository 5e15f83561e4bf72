-- ===== src/Host/Provider.antt =====
-- pkg/host/functions.go: the functions of one plugin as the list that `CreateHostFunctions` makes,
-- and as one function that calls any of them.
use dragonfly_wasm.Prelude.{ℕ, String, List, [], ◌∷◌}
use dragonfly_wasm.Host.{PluginContext, HostState}
use dragonfly_wasm.Host.Functions.{
  log_function, get_player_function, get_online_players_function, send_message_function,
  broadcast_function, kick_player_function, teleport_player_function, set_player_health_function,
  set_player_game_mode_function, give_item_function, get_block_function, set_block_function,
  storage_get_function, storage_set_function, storage_delete_function, schedule_task_function,
  cancel_task_function,
}

pub data ProvidedFunction : Type 0 where
  log get_player get_online_players send_message broadcast kick_player : ProvidedFunction
  teleport_player set_player_health set_player_game_mode give_item get_block : ProvidedFunction
  set_block storage_get storage_set storage_delete schedule_task cancel_task : ProvidedFunction

-- The constants `fnLog` and the others.
abbrev pub function_name : ProvidedFunction → String
function_name log = "host_log"
function_name get_player = "host_get_player"
function_name get_online_players = "host_get_online_players"
function_name send_message = "host_send_message"
function_name broadcast = "host_broadcast"
function_name kick_player = "host_kick_player"
function_name teleport_player = "host_teleport_player"
function_name set_player_health = "host_set_player_health"
function_name set_player_game_mode = "host_set_player_gamemode"
function_name give_item = "host_give_item"
function_name get_block = "host_get_block"
function_name set_block = "host_set_block"
function_name storage_get = "host_storage_get"
function_name storage_set = "host_storage_set"
function_name storage_delete = "host_storage_delete"
function_name schedule_task = "host_schedule_task"
function_name cancel_task = "host_cancel_task"

abbrev pub create_host_functions : List ProvidedFunction
create_host_functions =
    log ∷ get_player ∷ get_online_players ∷ send_message ∷ broadcast ∷ kick_player ∷ teleport_player
    ∷ set_player_health ∷ set_player_game_mode ∷ give_item ∷ get_block ∷ set_block ∷ storage_get
    ∷ storage_set ∷ storage_delete ∷ schedule_task ∷ cancel_task ∷ []

module _ {W F F32 M : Type 0} (ctx : PluginContext W F F32 M) where
  -- A call with the words `a` and `b` on the stack: `stack[0]` at the end, and the state.
  unfoldable pub run : ProvidedFunction → ℕ → ℕ → HostState W M → ℕ × HostState W M
  run log a b s = log_function ctx a b s
  run get_player a b s = get_player_function ctx a s
  run get_online_players a b s = get_online_players_function ctx s
  run send_message a b s = send_message_function ctx a b s
  run broadcast a b s = broadcast_function ctx a s
  run kick_player a b s = kick_player_function ctx a b s
  run teleport_player a b s = teleport_player_function ctx a s
  run set_player_health a b s = set_player_health_function ctx a b s
  run set_player_game_mode a b s = set_player_game_mode_function ctx a b s
  run give_item a b s = give_item_function ctx a s
  run get_block a b s = get_block_function ctx a s
  run set_block a b s = set_block_function ctx a s
  run storage_get a b s = storage_get_function ctx a s
  run storage_set a b s = storage_set_function ctx a b s
  run storage_delete a b s = storage_delete_function ctx a s
  run schedule_task a b s = schedule_task_function ctx a s
  run cancel_task a b s = cancel_task_function ctx a s

-- A call as the plugin makes it: the function, the words on the stack, and the memory at that time.
pub record Invocation (M : Type 0) : Type 0 where
  pub function : ProvidedFunction
  pub first : ℕ
  pub second : ℕ
  pub memory_then : M

module _ {W F F32 M : Type 0} (ctx : PluginContext W F F32 M) where
  abbrev pub invoke : Invocation M → HostState W M → ℕ × HostState W M
  invoke i s = run ctx i.function i.first i.second (record s { memory = i.memory_then })

  -- The calls of a plugin, one after the other.
  abbrev pub invoke_all : List (Invocation M) → HostState W M → HostState W M
  invoke_all [] s = s
  invoke_all (i ∷ is) s = invoke_all is (invoke i s).1
