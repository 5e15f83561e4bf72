-- ===== src/Manager/HostFunctions/Replies.antt =====
-- internal/manager/hostfuncs.go: what the host functions that only ask the server answer, read from
-- the plugin's memory at the offset that they return.
use dragonfly_wasm.Prelude.{
  ℕ, String, [], ◌∷◌, refl, ◌∙◌, ap, inl, inr, Option-cases, ◌≡◌, Bool, true, false, Option, none,
  some, List, arith, map,
}
use dragonfly_wasm.Prelude.Results.{Result, ok, err}
use dragonfly_wasm.Manager.Server.{ServerApi}
use dragonfly_wasm.Manager.HostFunctions.{
  HostFunction, log, broadcast, send_message, get_player, get_online_players, teleport_player,
  kick_player, set_player_health, set_player_gamemode, get_block, set_block, run,
}
use dragonfly_wasm.Manager.HostFunctions.Requests.{
  Codec, Response, player, players, block, failure, PlayerResponse, BlockResponse, BlockPos,
}
use dragonfly_wasm.Manager.HostFunctions.Calls.{HostState, Env, Memory, called, write_json}
use dragonfly_wasm.Manager.HostFunctions.Players.{
  host_get_player, host_get_online_players, player_response,
}
use dragonfly_wasm.Manager.HostFunctions.Blocks.{host_get_block, block_response}
use dragonfly_wasm.Manager.HostFunctions.Commands.{world_or_default}

abbrev pub is_query : HostFunction → Bool
is_query get_player = true
is_query get_online_players = true
is_query get_block = true
is_query _ = false

module _ {W P D F : Type 0} (api : ServerApi W P D F) (w : W) where
  -- A player as the server has it, with the empty text for no world.
  abbrev pub shown_world : Option D → String
  shown_world none = ""
  shown_world (some d) = api.world.world_name d w

  abbrev pub shown_player : P → PlayerResponse F
  shown_player p = record {
    uuid = api.player.uuid p w;
    name = api.player.name p w;
    world_name = shown_world (api.player.world p w);
    position = api.player.position p w;
    error = "";
  }

  -- The block at a position of a world, which is the default one when there is none of that name.
  abbrev pub shown_block : D → BlockPos → BlockResponse
  shown_block d at = record {
    block_type = (api.world.get_block d at.x at.y at.z w).0;
    position = at;
    properties = (api.world.get_block d at.x at.y at.z w).1;
    error = "";
  }

  abbrev pub player_reply : Option P → Response F
  player_reply none = failure "player not found"
  player_reply (some p) = player (shown_player p)

  player-shown : (p : P) → player_response api w p ≡ shown_player p
  unfolding player_response
  player-shown p = ground arith

  players-shown : (ps : List P) → map (player_response api w) ps ≡ map shown_player ps
  players-shown [] = refl
  players-shown (p ∷ ps) =
      ap (λ x. x ∷ map (player_response api w) ps) (player-shown p)
      ∙ ap (λ xs. shown_player p ∷ xs) (players-shown ps)

module _ {W P D F F32 M : Type 0} (env : Env W P D F F32 M) (w : W) where
  abbrev pub on_api : Option (ServerApi W P D F) → (ServerApi W P D F → Response F) → Response F
  on_api none answer = failure "server API not available"
  on_api (some api) answer = answer api

  abbrev pub on_request : {A : Type 0} → Result A → (A → Response F) → Response F
  on_request (ok req) answer = answer req
  on_request (err e) answer = failure "failed to parse request"

  abbrev pub on_input : Result (List ℕ) → (List ℕ → Response F) → Response F
  on_input (ok bytes) answer = answer bytes
  on_input (err e) answer = failure "failed to read input"

  -- The response to a query, from what reading the request gives.
  abbrev pub reply : HostFunction → Result (List ℕ) → Response F
  reply get_online_players input =
      on_api env.server_api
        λ api. players (record { players = map (shown_player api w) (api.get_all_players w) })
  reply get_player input = on_input input λ bytes.
      on_request (env.codec.get_player_request bytes)
        λ req. on_api env.server_api λ api. player_reply api w (api.get_player req.player_uuid w)
  reply get_block input = on_input input λ bytes.
      on_request (env.codec.get_block_request bytes) λ req. on_api env.server_api λ api.
        block
          (shown_block api w (world_or_default api (api.get_world req.world_name w) w) req.position)
  reply _ input = failure ""

-- What was written is read back.
abbrev pub Keeps : {M : Type 0} → Memory M → Type 0
Keeps {M} memory =
    (bytes : List ℕ) (m : M) (offset : ℕ) (m' : M)
    → memory.write_bytes bytes m ≡ (ok offset, m')
    → memory.read_bytes offset m' ≡ ok bytes

-- A plugin's parser that reads every response that the codec marshals.
abbrev pub Parses : {F F32 : Type 0} → Codec F F32 → (List ℕ → Option (Response F)) → Type 0
Parses {F} codec parse =
    (r : Response F) (bytes : List ℕ) → codec.marshal r ≡ ok bytes → parse bytes ≡ some r

abbrev pub parse_read :
    {F : Type 0} → (List ℕ → Option (Response F)) → Result (List ℕ) → Option (Response F)
parse_read parse (ok bytes) = parse bytes
parse_read parse (err e) = none

module _ {W P D F F32 M : Type 0} (env : Env W P D F F32 M) where
  online-write_json :
      (slot : ℕ) (s : HostState W M)
      → run env get_online_players slot s
        ≡ called (
            write_json env
              (reply env s.server get_online_players (env.plugin.read_bytes slot s.memory))
              s)
  unfolding run host_get_online_players
  online-write_json slot s = elim (Option-cases env.server_api) [
    | inl e ↦ ground arith
    | inr (api, e) ↦
        let q = players-shown api s.server (api.get_all_players s.server) in ground arith
  ]

  -- A query is one `writeJSON` of the reply.
  run-write_json :
      (f : HostFunction) (slot : ℕ) (s : HostState W M)
      → is_query f ≡ true
      → run env f slot s
        ≡ called (write_json env (reply env s.server f (env.plugin.read_bytes slot s.memory)) s)
  unfolding run host_get_player host_get_online_players host_get_block player_response
      block_response
  run-write_json get_player slot s h = ground arith
  run-write_json get_online_players slot s h = online-write_json slot s
  run-write_json get_block slot s h = ground arith
  run-write_json log slot s h = cc
  run-write_json broadcast slot s h = cc
  run-write_json send_message slot s h = cc
  run-write_json teleport_player slot s h = cc
  run-write_json kick_player slot s h = cc
  run-write_json set_player_health slot s h = cc
  run-write_json set_player_gamemode slot s h = cc
  run-write_json set_block slot s h = cc

  -- If the reply of a query can be marshalled and written, and the memory keeps what is written,
  -- then reading at the offset that the query answers and parsing gives the reply: the player or
  -- players as the server has them, the type and the properties of the block at the position that
  -- was asked for, in the world of that name or else in the default world, or the error that the
  -- input, the missing server or the missing player calls for. The server and the log stay as they
  -- were.
  pub read_back-run :
      (parse : List ℕ → Option (Response F)) (f : HostFunction) (slot : ℕ) (s : HostState W M)
      (bytes : List ℕ) (offset : ℕ) (m' : M)
      → Keeps env.plugin
      → Parses env.codec parse
      → is_query f ≡ true
      → let r = reply env s.server f (env.plugin.read_bytes slot s.memory) in
        env.codec.marshal r ≡ ok bytes
        → env.plugin.write_bytes bytes s.memory ≡ (ok offset, m')
        → let out = run env f slot s in
          (parse_read parse (env.plugin.read_bytes out.0 out.1.memory) ≡ some r)
          × (out.1.server ≡ s.server)
          × (out.1.logged ≡ s.logged)
  unfolding write_json
  read_back-run parse f slot s bytes offset m' keeps parses h coded wrote =
      rw (run-write_json f slot s h, coded, wrote)
        (ground (arith, keeps bytes s.memory offset m' wrote, parses _ bytes coded))
