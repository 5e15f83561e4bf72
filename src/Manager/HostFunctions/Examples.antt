-- ===== src/Manager/HostFunctions/Examples.antt =====
-- A server with one player and one world, a plugin with one block of memory, and the theorems on
-- the host functions there.
use dragonfly_wasm.Prelude.{
  ℕ, ◌≡◌, refl, String, Bool, ◌&&◌, none, some, List, [], ◌∷◌, ◌++◌, arith, str_eq, eq_iff,
  if◌then◌else◌, ◌==◌,
}
use dragonfly_wasm.Prelude.Results.{Result, ok, err}
use dragonfly_wasm.Manager.Server.{ServerApi, PlayerApi, WorldApi}
use dragonfly_wasm.Manager.HostFunctions.{kick_player, get_player, run}
use dragonfly_wasm.Manager.HostFunctions.Requests.{
  Codec, Response, player, players, block, failure, PlayerResponse,
}
use dragonfly_wasm.Manager.HostFunctions.Calls.{HostState, Env, Memory}
use dragonfly_wasm.Manager.HostFunctions.Commands.{run-requested, requested, word}
use dragonfly_wasm.Manager.HostFunctions.Replies.{read_back-run, reply, Parses, parse_read}
use dragonfly_wasm.Manager.HostFunctions.Players.{player_response, host_kick_player}

-- The server's state is what it has done.
abbrev steve_api : PlayerApi (List String) String String ℕ
steve_api = record {
  uuid = λ p w. p;
  name = λ p w. "steve";
  send_message = λ p text w. w ++ text ∷ [];
  teleport = λ p to world w. (some "no such world", w);
  kick = λ p reason w. w ++ "kick" ∷ reason ∷ [];
  set_health = λ p h w. w ++ "health" ∷ [];
  set_game_mode = λ p mode w. w ++ "mode" ∷ [];
  position = λ p w. record { x = 1; y = 64; z = 2 };
  world = λ p w. some "overworld";
}

abbrev world_api : WorldApi (List String) String
world_api = record {
  world_name = λ d w. d;
  get_block = λ d x y z w. ("stone", []);
  set_block = λ d x y z type properties w. (none, w ++ type ∷ []);
}

abbrev server_api : ServerApi (List String) String String ℕ
server_api = record {
  player = steve_api;
  world = world_api;
  get_player = λ uuid w. if str_eq uuid "u1" then some "u1" else none;
  get_all_players = λ w. "u1" ∷ [];
  get_world = λ name w. none;
  get_default_world = λ w. "overworld";
  broadcast_message = λ text w. w ++ text ∷ [];
}

abbrev steve : PlayerResponse ℕ
steve = record {
  uuid = "u1";
  name = "steve";
  world_name = "overworld";
  position = record { x = 1; y = 64; z = 2 };
  error = "";
}

abbrev is_steve : PlayerResponse ℕ → Bool
is_steve r =
    str_eq r.uuid "u1"
    && str_eq r.name "steve"
    && str_eq r.world_name "overworld"
    && str_eq r.error ""
    && r.position.x == 1
    && r.position.y == 64
    && r.position.z == 2

-- It marshals one response only.
abbrev marshal : Response ℕ → Result (List ℕ)
marshal (player r) = if is_steve r then ok (1 ∷ []) else err "too long"
marshal (players r) = err "too long"
marshal (block r) = err "too long"
marshal (failure msg) = err "too long"

abbrev codec : Codec ℕ ℕ
codec = record {
  log_request = λ b. err "syntax";
  broadcast_request = λ b. err "syntax";
  send_message_request = λ b. err "syntax";
  get_player_request = λ b. ok (record { player_uuid = "u1" });
  teleport_request = λ b. err "syntax";
  kick_request = λ b. ok (record { player_uuid = "u1"; reason = "spam" });
  set_health_request = λ b. err "syntax";
  set_gamemode_request = λ b. err "syntax";
  get_block_request = λ b. err "syntax";
  set_block_request = λ b. err "syntax";
  marshal = marshal;
  float64 = λ x. x;
}

-- One block, at offset 8.
abbrev one_block : Memory (List ℕ)
one_block = record {
  read_bytes = λ offset m. if offset == 8 then ok m else err "out of bounds";
  write_bytes = λ bytes m. (ok 8, bytes);
}

abbrev env : Env (List String) String String ℕ ℕ (List ℕ)
env = record { server_api = some server_api; codec = codec; plugin = one_block }

abbrev start : HostState (List String) (List ℕ)
start = record { server = []; memory = 9 ∷ []; logged = [] }

run-requested_example :
    ((run env kick_player 8 start).0 ≡ word (requested env 8 start kick_player).0)
    × ((run env kick_player 8 start).1.server ≡ (requested env 8 start kick_player).1)
    × ((run env kick_player 8 start).1.memory ≡ start.memory)
run-requested_example = run-requested env 8 start kick_player refl

-- The same call, run.
kicks : (run env kick_player 8 start).1.server ≡ "kick" ∷ "spam" ∷ []
unfolding run host_kick_player
kicks = refl

marshal-Parses : Parses codec (λ b. some (player steve))
marshal-Parses (player r) bytes h = ground (
  arith,
  eq_iff r.uuid "u1",
  eq_iff r.name "steve",
  eq_iff r.world_name "overworld",
  eq_iff r.error "",
)
marshal-Parses (players r) bytes h = cc
marshal-Parses (block r) bytes h = cc
marshal-Parses (failure msg) bytes h = cc

read_back-run_example :
    let out = run env get_player 8 start in
    (parse_read (λ b. some (player steve)) (one_block.read_bytes out.0 out.1.memory)
      ≡ some (reply env start.server get_player (one_block.read_bytes 8 start.memory)))
    × (out.1.server ≡ start.server)
    × (out.1.logged ≡ start.logged)
unfolding player_response
read_back-run_example =
    read_back-run env (λ b. some (player steve)) get_player 8 start (1 ∷ []) 8 (1 ∷ [])
      (λ b m o m' e. ground arith) marshal-Parses refl refl refl
