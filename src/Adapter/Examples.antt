-- ===== src/Adapter/Examples.antt =====
-- The adapter over a small server, and the theorems on it there.
use dragonfly_wasm.Prelude.{
  ℕ, ◌-◌, ◌==◌, String, ◌≡◌, refl, Bool, true, false, Option, none, some, List, [], ◌∷◌, ◌++◌,
  if◌then◌else◌, ltb, is_some, get, GoMap,
}
use dragonfly_wasm.Prelude.Int.{pos}
use dragonfly_wasm.Prelude.Results.{ok, err}
use dragonfly_wasm.Manager.HostFunctions.{set_block, set_player_health, run}
use dragonfly_wasm.Manager.HostFunctions.Requests.{Codec}
use dragonfly_wasm.Manager.HostFunctions.Calls.{HostState, Env, Memory}
use dragonfly_wasm.Manager.HostFunctions.Commands.{decoded}
use dragonfly_wasm.Adapter.{
  Dragonfly, State, adapter, get_player, get_world, track_player, untrack_player,
}
use dragonfly_wasm.Adapter.Effects.{OnlyHeals, set_block_keeps, run-OnlyHeals}

-- The state of the server is what it has done; everyone has a health of 7.
abbrev game : Dragonfly (List String) String String String String ℕ
game = record {
  uuid = λ p. p;
  player_name = λ p w. "steve";
  message = λ p msg w. w ++ msg ∷ [];
  disconnect = λ p reason w. w ++ "kick" ∷ [];
  teleport = λ p to w. w ++ "teleport" ∷ [];
  health = λ p w. 7;
  heal = λ p amount w. w ++ "heal" ∷ [];
  set_game_mode = λ p mode w. w ++ mode ∷ [];
  position = λ p w. record { x = 1; y = 64; z = 2 };
  world_of = λ p w. none;
  overworld = λ w. "overworld";
  nether = λ w. none;
  the_end = λ w. some "end";
  world_name = λ d w. d;
  block_at = λ d pos w. none;
  encode_block = λ b. b;
  set_block = λ d pos b w. w ++ b ∷ [];
  game_mode_by_id = λ mode. none;
  survival = "survival";
  is_greater = λ x y. ltb y x;
  minus = λ x y. x - y;
}

abbrev codec : Codec ℕ ℕ
codec = record {
  log_request = λ b. err "syntax";
  broadcast_request = λ b. err "syntax";
  send_message_request = λ b. err "syntax";
  get_player_request = λ b. err "syntax";
  teleport_request = λ b. err "syntax";
  kick_request = λ b. err "syntax";
  set_health_request = λ b. ok (record { player_uuid = "u1"; health = 20 });
  set_gamemode_request = λ b. err "syntax";
  get_block_request = λ b. err "syntax";
  set_block_request = λ b. ok (record {
    world_name = "overworld";
    position = record { x = pos 1; y = pos 64; z = pos 2 };
    block_type = "minecraft:stone";
    properties = [];
  });
  marshal = λ r. err "too long";
  float64 = λ x. x;
}

-- One block, at offset 8.
abbrev one_block : Memory (List ℕ)
one_block = record {
  read_bytes = λ offset m. if offset == 8 then ok m else err "out of bounds";
  write_bytes = λ bytes m. (ok 8, bytes);
}

abbrev env : Env (State game) String String ℕ ℕ (List ℕ)
env = record { server_api = some (adapter game); codec = codec; plugin = one_block }

abbrev start : HostState (State game) (List ℕ)
start = record { server = track_player game "u1" ([], []); memory = 9 ∷ []; logged = [] }

tracked-run : get_player game "u1" (track_player game "u1" ([], [])) ≡ some "u1"
unfolding track_player get dragonfly_wasm.Prelude.put
tracked-run = refl

untracked-run :
    get_player game "u1" (untrack_player game "u1" (track_player game "u1" ([], []))) ≡ none
unfolding track_player untrack_player get dragonfly_wasm.Prelude.put dragonfly_wasm.Prelude.delete
untracked-run = refl

end-run : get_world game "end" ([], []) ≡ some "end"
unfolding get_world
end-run = refl

heals-run : (run env set_player_health 8 start).1.server.1 ≡ "heal" ∷ []
unfolding run dragonfly_wasm.Manager.HostFunctions.Players.host_set_player_health adapter
    dragonfly_wasm.Adapter.player_adapter dragonfly_wasm.Adapter.set_health track_player get
    dragonfly_wasm.Prelude.put
heals-run = refl

set_block_keeps_example :
    ((run env set_block 8 start).1.server ≡ start.server)
    × ((run env set_block 8 start).0 ≡ (
        if is_some (decoded codec set_block (one_block.read_bytes 8 start.memory)) then 1 else 0))
set_block_keeps_example = set_block_keeps game env refl 8 start

run-OnlyHeals_example :
    OnlyHeals game codec start.server (run env set_player_health 8 start).1.server
run-OnlyHeals_example = run-OnlyHeals game env refl 8 start
