-- ===== src/Manager/HostFunctions/Players.antt =====
-- internal/manager/hostfuncs.go: the host functions about the log, the chat and the players. Each
-- takes `stack[0]` and returns with a new one.
use dragonfly_wasm.Prelude.{ℕ, String, Option, none, some, map, str_eq, if◌then◌else◌}
use dragonfly_wasm.Manager.Server.{ServerApi}
use dragonfly_wasm.Manager.HostFunctions.Requests.{PlayerResponse, player, players}
use dragonfly_wasm.Manager.HostFunctions.Calls.{
  Severity, debug, info, warn, error_level, Env, Call, Step, answer, or_else, found_or, log_line,
  ask, act, attempt, zero_on, read_input, write_json, write_error, ◌>>=◌, ◌>>◌,
}

-- The switch on `req.Level`.
unfoldable pub severity_of : String → Severity
severity_of level =
    if str_eq level "debug"
    then debug
    else if str_eq level "warn"
    then warn
    else if str_eq level "error"
    then error_level
    else info

module _ {W P D F : Type 0} (api : ServerApi W P D F) where
  abbrev pub name_of_world : Option D → W → String
  name_of_world (some d) w = api.world.world_name d w
  name_of_world none w = ""

  unfoldable pub player_response : W → P → PlayerResponse F
  player_response w p = record {
    uuid = api.player.uuid p w;
    name = api.player.name p w;
    world_name = name_of_world (api.player.world p w) w;
    position = api.player.position p w;
    error = "";
  }

module _ {W P D F F32 M : Type 0} (env : Env W P D F F32 M) where
  abbrev pub announce_to : Option (ServerApi W P D F) → String → Call W M (Unit {0})
  announce_to none message s = (Step.next tt, s)
  announce_to (some api) message s = act (api.broadcast_message message) s

  -- It returns with the stack as it was on every path.
  unfoldable pub host_log : ℕ → Call W M ℕ
  unfolding severity_of
  host_log slot = do
    read ← read_input env slot
    bytes ← or_else read (λ e. answer slot)
    req ← or_else (env.codec.log_request bytes) (λ e. answer slot)
    log_line (severity_of req.level) req.message none
    answer slot

  unfoldable pub host_broadcast : ℕ → Call W M ℕ
  host_broadcast slot = do
    read ← read_input env slot
    bytes ← or_else read (λ e. answer 0)
    req ← or_else (env.codec.broadcast_request bytes) (λ e. answer 0)
    announce_to env.server_api req.message
    answer 1

  unfoldable pub host_send_message : ℕ → Call W M ℕ
  host_send_message slot = do
    read ← read_input env slot
    bytes ←
        or_else read
          λ e. do log_line debug "host_send_message: read bytes failed" (some e); answer 0
    req ←
        or_else (env.codec.send_message_request bytes)
          λ e. do log_line debug "host_send_message: unmarshal failed" (some e); answer 0
    api ← found_or env.server_api (answer 0)
    found ← ask (api.get_player req.player_uuid)
    p ←
        found_or found
          do log_line debug "host_send_message: player not found" (some req.player_uuid); answer 0
    act (api.player.send_message p req.message)
    answer 1

  unfoldable pub host_get_player : ℕ → Call W M ℕ
  unfolding player_response write_json
  host_get_player slot = do
    read ← read_input env slot
    bytes ← or_else read (λ e. write_error env "failed to read input")
    req ←
        or_else (env.codec.get_player_request bytes)
          (λ e. write_error env "failed to parse request")
    api ← found_or env.server_api (write_error env "server API not available")
    found ← ask (api.get_player req.player_uuid)
    p ← found_or found (write_error env "player not found")
    resp ← ask (λ w. player_response api w p)
    write_json env (player resp)

  unfoldable pub host_get_online_players : ℕ → Call W M ℕ
  unfolding player_response write_json
  host_get_online_players slot = do
    api ← found_or env.server_api (write_error env "server API not available")
    resp ← ask (λ w. map (player_response api w) (api.get_all_players w))
    write_json env (players (record { players = resp }))

  unfoldable pub host_teleport_player : ℕ → Call W M ℕ
  host_teleport_player slot = do
    read ← read_input env slot
    bytes ← or_else read (λ e. answer 0)
    req ← or_else (env.codec.teleport_request bytes) (λ e. answer 0)
    api ← found_or env.server_api (answer 0)
    found ← ask (api.get_player req.player_uuid)
    p ← found_or found (answer 0)
    e ← attempt (api.player.teleport p req.position req.world_name)
    zero_on e
    answer 1

  unfoldable pub host_kick_player : ℕ → Call W M ℕ
  host_kick_player slot = do
    read ← read_input env slot
    bytes ← or_else read (λ e. answer 0)
    req ← or_else (env.codec.kick_request bytes) (λ e. answer 0)
    api ← found_or env.server_api (answer 0)
    found ← ask (api.get_player req.player_uuid)
    p ← found_or found (answer 0)
    act (api.player.kick p req.reason)
    answer 1

  unfoldable pub host_set_player_health : ℕ → Call W M ℕ
  host_set_player_health slot = do
    read ← read_input env slot
    bytes ← or_else read (λ e. answer 0)
    req ← or_else (env.codec.set_health_request bytes) (λ e. answer 0)
    api ← found_or env.server_api (answer 0)
    found ← ask (api.get_player req.player_uuid)
    p ← found_or found (answer 0)
    act (api.player.set_health p (env.codec.float64 req.health))
    answer 1

  unfoldable pub host_set_player_gamemode : ℕ → Call W M ℕ
  host_set_player_gamemode slot = do
    read ← read_input env slot
    bytes ← or_else read (λ e. answer 0)
    req ← or_else (env.codec.set_gamemode_request bytes) (λ e. answer 0)
    api ← found_or env.server_api (answer 0)
    found ← ask (api.get_player req.player_uuid)
    p ← found_or found (answer 0)
    act (api.player.set_game_mode p req.gamemode)
    answer 1
