-- ===== src/Host/Functions.antt =====
-- pkg/host/functions.go: the functions themselves.
use dragonfly_wasm.Prelude.{
  ℕ, ◌-◌, ◌%◌, ◌^◌, String, Option, none, some, List, [], ◌∷◌, ◌++◌, ltb, str_eq, if◌then◌else◌,
}
use dragonfly_wasm.Prelude.Int.{ℤ, pos, negsuc}
use dragonfly_wasm.Host.{
  PluginContext, HostState, Severity, debug, info, warn, error_level, bool_to_uint64, is_nil,
}
use dragonfly_wasm.Host.Serialization.{
  serialize_player_info, serialize_player_info_list, serialize_block_info,
  deserialize_teleport_request, deserialize_give_item_request, deserialize_get_block_request,
  deserialize_set_block_request, deserialize_schedule_task_request,
}

-- int32(x), for x of type uint64
abbrev pub int32_of : ℕ → ℤ
int32_of x = let r = x % 2 ^ 32 in if ltb r (2 ^ 31) then pos r else negsuc (2 ^ 32 - r - 1)

-- The switch on `level`.
unfoldable pub severity_of : String → Severity
severity_of level =
    if str_eq level "debug"
    then debug
    else if str_eq level "warn"
    then warn
    else if str_eq level "error"
    then error_level
    else info

-- stack[0] = boolToUint64(err == nil), behind a method of the server.
abbrev pub acted : {W M : Type 0} → HostState W M → Option String × W → ℕ × HostState W M
acted s (e, w) = (bool_to_uint64 (is_nil e), record s { server = w })

-- offset, _ := plugin.WriteBytes(...); stack[0] = offset
abbrev pub placed : {W M : Type 0} → HostState W M → (ℕ × Option String) × M → ℕ × HostState W M
placed s ((offset, e), m) = (offset, record s { memory = m })

module _ {W F F32 M : Type 0} (ctx : PluginContext W F F32 M) where
  -- The pair of `stack[0]` and the state.
  abbrev pub Called : Type 0
  Called = ℕ × HostState W M

  abbrev pub string_at : HostState W M → ℕ → String
  string_at s offset = ctx.memory.read_string offset s.memory

  abbrev pub bytes_at : HostState W M → ℕ → List ℕ
  bytes_at s offset = ctx.memory.read_bytes offset s.memory

  abbrev pub write : List ℕ → HostState W M → ℕ × HostState W M
  write bytes s = placed s (ctx.memory.write_bytes bytes s.memory)

  -- A value that was found is written to the plugin's memory; a missing one is answered with 0.
  abbrev pub write_found :
      {A : Type 0} → (A → List ℕ) → Option A → HostState W M → ℕ × HostState W M
  write_found serialize none s = (0, s)
  write_found serialize (some a) s = write (serialize a) s

  unfoldable pub log_function : ℕ → ℕ → HostState W M → ℕ × HostState W M
  unfolding severity_of
  log_function a b s = (
    a,
    record s {
      logged =
          s.logged
          ++ record {
            severity = severity_of (string_at s a);
            message = string_at s b;
            plugin = ctx.plugin_id;
          }
            ∷ [];
    },
  )

  unfoldable pub get_player_function : ℕ → HostState W M → ℕ × HostState W M
  get_player_function a s =
      write_found (serialize_player_info ctx.codec) (ctx.api.get_player (string_at s a) s.server) s

  unfoldable pub get_online_players_function : HostState W M → ℕ × HostState W M
  get_online_players_function s =
      write (serialize_player_info_list ctx.codec (ctx.api.get_online_players s.server)) s

  unfoldable pub send_message_function : ℕ → ℕ → HostState W M → ℕ × HostState W M
  send_message_function a b s =
      acted s (ctx.api.send_message (string_at s a) (string_at s b) s.server)

  unfoldable pub broadcast_function : ℕ → HostState W M → ℕ × HostState W M
  broadcast_function a s =
      (a, record s { server = ctx.api.broadcast_message (string_at s a) s.server })

  unfoldable pub kick_player_function : ℕ → ℕ → HostState W M → ℕ × HostState W M
  kick_player_function a b s =
      acted s (ctx.api.kick_player (string_at s a) (string_at s b) s.server)

  unfoldable pub teleport_player_function : ℕ → HostState W M → ℕ × HostState W M
  teleport_player_function a s =
      let req = deserialize_teleport_request ctx.codec (bytes_at s a) in
      acted s (ctx.api.teleport_player req.uuid req.x req.y req.z req.world s.server)

  unfoldable pub set_player_health_function : ℕ → ℕ → HostState W M → ℕ × HostState W M
  set_player_health_function a b s =
      acted s (ctx.api.set_player_health (string_at s a) (ctx.codec.float32_of b) s.server)

  unfoldable pub set_player_game_mode_function : ℕ → ℕ → HostState W M → ℕ × HostState W M
  set_player_game_mode_function a b s =
      acted s (ctx.api.set_player_game_mode (string_at s a) (int32_of b) s.server)

  unfoldable pub give_item_function : ℕ → HostState W M → ℕ × HostState W M
  give_item_function a s =
      let req = deserialize_give_item_request ctx.codec (bytes_at s a) in
      acted s (ctx.api.give_item req.uuid req.item_type req.count req.metadata s.server)

  unfoldable pub get_block_function : ℕ → HostState W M → ℕ × HostState W M
  get_block_function a s =
      let req = deserialize_get_block_request ctx.codec (bytes_at s a) in
      write_found (serialize_block_info ctx.codec)
        (ctx.api.get_block req.world req.x req.y req.z s.server) s

  unfoldable pub set_block_function : ℕ → HostState W M → ℕ × HostState W M
  set_block_function a s =
      let req = deserialize_set_block_request ctx.codec (bytes_at s a) in
      acted s (ctx.api.set_block req.world req.x req.y req.z req.block_type req.properties s.server)

  unfoldable pub storage_get_function : ℕ → HostState W M → ℕ × HostState W M
  storage_get_function a s =
      write_found (λ value. value) (ctx.api.storage_get ctx.plugin_id (string_at s a) s.server) s

  unfoldable pub storage_set_function : ℕ → ℕ → HostState W M → ℕ × HostState W M
  storage_set_function a b s =
      acted s (ctx.api.storage_set ctx.plugin_id (string_at s a) (bytes_at s b) s.server)

  unfoldable pub storage_delete_function : ℕ → HostState W M → ℕ × HostState W M
  storage_delete_function a s =
      acted s (ctx.api.storage_delete ctx.plugin_id (string_at s a) s.server)

  unfoldable pub schedule_task_function : ℕ → HostState W M → ℕ × HostState W M
  schedule_task_function a s =
      let req = deserialize_schedule_task_request ctx.codec (bytes_at s a) in
      acted s (ctx.api.schedule_task ctx.plugin_id req.task_id req.delay_ms req.payload s.server)

  unfoldable pub cancel_task_function : ℕ → HostState W M → ℕ × HostState W M
  cancel_task_function a s = acted s (ctx.api.cancel_task ctx.plugin_id (string_at s a) s.server)
